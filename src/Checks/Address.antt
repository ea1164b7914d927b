-- ===== src/Checks/Address.antt =====
-- addr.py: an interface that prints and reads two ports.
use dssd.Prelude.{◌≡◌, refl, String, some, none, List, [], ◌∷◌, map, ◌==◌, str_eq, if◌then◌else◌}
use dssd.Addr.{Decimal, has_char, split_addr, format_addr, self_addr, parse_peers}
use dssd.Addr.RoundTrip.{split_addr-format_addr, join}

abbrev ports : Decimal
ports = record {
  str = λ n. if n == 0 then "0" else "9000";
  int = λ s. if str_eq s "0" then some 0 else if str_eq s "9000" then some 9000 else none;
}

split_addr-format_addr_example :
    split_addr ports (format_addr ports "::1" 9000) ≡ some ("::1", 9000)
unfolding has_char
split_addr-format_addr_example =
    split_addr-format_addr ports "::1" 9000 (record { reads = refl; no_colon = refl })
      (record { no_open = refl; no_close = refl })

abbrev pairs : List (String × String)
pairs = ("a", "h1:1") ∷ ("b", "h2:2") ∷ ("a", "h3=3") ∷ []

joined_peers : parse_peers (map join pairs) ≡ some (("a", "h3=3") ∷ ("b", "h2:2") ∷ [])
unfolding parse_peers
joined_peers = refl

-- An address that begins with a bracket, and one without a port.
split_bracketed : split_addr ports "[::1]:9000" ≡ some ("::1", 9000)
unfolding split_addr
split_bracketed = refl

split_bare : split_addr ports "localhost" ≡ none
unfolding split_addr
split_bare = refl

dial_loopback : self_addr ports "0.0.0.0:0" 9000 ≡ some "127.0.0.1:9000"
unfolding self_addr split_addr format_addr
dial_loopback = refl

no_equals_sign : parse_peers ("no-equals-sign" ∷ []) ≡ none
unfolding parse_peers
no_equals_sign = refl
