-- ===== src/Addr.antt =====
-- addr.py: host and port in one text, and the peers of a command line. Python's decimal printing
-- and reading of a port is an interface, `Decimal`.
pub mod RoundTrip
use Prim.Native.Char.{Char, code}
use Prim.Native.String
use dssd.Prelude.{
  ℕ, String, Bool, true, false, ◌||◌, Option, none, some, List, [], ◌∷◌, ◌==◌, str_eq,
  if◌then◌else◌, Dict, insert,
}

-- `f"{port}"`, and `int(text)`, where `none` is its ValueError.
pub record Decimal : Type 0 where
  pub str : ℕ → String
  pub int : String → Option ℕ

infixl 65 ◌++◌
abbrev pub ◌++◌ : String → String → String
s ++ t = String.◌++◌ s t

-- `c in s`, for one character
unfoldable pub has_char : ℕ → String → Bool
has_char c String.[] = false
has_char c (String.◌∷◌ d s) = code d == c || has_char c s

-- `s.rsplit(c, 1)`: at the last `c`, where `none` is the failed unpacking of a text without any.
unfoldable pub rsplit : ℕ → String → Option (String × String)
rsplit c String.[] = none
rsplit c (String.◌∷◌ d s) = elim (rsplit c s) [
  | some (before, after) ↦ some (String.◌∷◌ d before, after)
  | none ↦ if code d == c then some ("", s) else none
]

-- `s.split(c, 1)`: at the first `c`.
unfoldable pub split : ℕ → String → Option (String × String)
split c String.[] = none
split c (String.◌∷◌ d s) =
    let rest = split c s in
    if code d == c
    then some ("", s)
    else elim rest [ none ↦ none | some (before, after) ↦ some (String.◌∷◌ d before, after) ]

-- The rest of a text that begins with a colon.
abbrev pub after_colon : String → Option String
after_colon String.[] = none
after_colon (String.◌∷◌ d s) = if code d == b':' then some s else none

-- `s.partition("]:")`, without the separator.
unfoldable pub partition_close : String → String × String
partition_close String.[] = ("", "")
partition_close (String.◌∷◌ d s) =
    let rest = partition_close s in
    elim (if code d == b']' then after_colon s else none) [
      | some after ↦ ("", after)
      | none ↦ (String.◌∷◌ d rest.0, rest.1)
    ]

abbrev pub is_wildcard : String → Bool
is_wildcard host = str_eq host "0.0.0.0" || (str_eq host "::" || str_eq host "")

module _ (py : Decimal) where
  unfoldable pub format_addr : (host : String) (port : ℕ) → String
  unfolding has_char
  format_addr host port =
      if has_char b':' host
      then String.◌∷◌ "[" (host ++ String.◌∷◌ "]" (String.◌∷◌ ":" (py.str port)))
      else host ++ String.◌∷◌ ":" (py.str port)

  abbrev with_port : String × String → Option (String × ℕ)
  with_port (host, port) = elim (py.int port) [ none ↦ none | some n ↦ some (host, n) ]

  -- The part of `split_addr` for an address that does not begin with a bracket.
  unfoldable pub split_plain : String → Option (String × ℕ)
  unfolding rsplit
  split_plain addr = elim (rsplit b':' addr) [ none ↦ none | some parts ↦ with_port parts ]

  unfoldable pub split_addr : String → Option (String × ℕ)
  unfolding split_plain partition_close
  split_addr String.[] = split_plain ""
  split_addr (String.◌∷◌ d s) =
      if code d == b'[' then with_port (partition_close s) else split_plain (String.◌∷◌ d s)

  -- `resolve_addr`; `resolve` is `socket.gethostbyname`.
  unfoldable pub resolve_addr : (resolve : String → Option String) → String → Option String
  resolve_addr resolve addr = elim (split_addr addr) [
    | none ↦ none
    | some (host, port) ↦ elim (resolve host) [ none ↦ none | some ip ↦ some (format_addr ip port) ]
  ]

  unfoldable pub self_addr : (bind_addr : String) (port : ℕ) → Option String
  self_addr bind_addr port = elim (split_addr bind_addr) [
    | none ↦ none
    | some (host, _) ↦ some (format_addr (if is_wildcard host then "127.0.0.1" else host) port)
  ]

-- The loop of `parse_peers`; `none` is the ValueError of a value without "=".
unfoldable pub parse_loop : List String → Dict String → Option (Dict String)
unfolding split insert
parse_loop [] peers = some peers
parse_loop (value ∷ values) peers = elim (split b'=' value) [
  | none ↦ none
  | some (peer_id, addr) ↦ parse_loop values (insert peer_id addr peers)
]

unfoldable pub parse_peers : List String → Option (Dict String)
unfolding parse_loop
parse_peers values = parse_loop values []
