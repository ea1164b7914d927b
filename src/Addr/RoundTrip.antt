-- ===== src/Addr/RoundTrip.antt =====
-- addr.py: what is formatted is split again, and what is joined is parsed again.
use Prim.Native.Char.{Char, code}
use dssd.Prelude.{
  ℕ, ◌≡◌, refl, ◌∙◌, inl, inr, String, false, none, some, List, [], ◌∷◌, map, if◌then◌else◌, Dict,
  insert, arith, Bool-cases,
}
use text.Mathlib.TextLemmas.{nil-append, cons-append}
use dssd.Addr.{
  Decimal, ◌++◌, has_char, rsplit, split, partition_close, format_addr, with_port, split_plain,
  split_addr, is_wildcard, self_addr, parse_loop, parse_peers,
}

-- How Python prints and reads this number.
pub record IsDecimal (py : Decimal) (n : ℕ) : Type 0 where
  pub reads : py.int (py.str n) ≡ some n
  pub no_colon : has_char b':' (py.str n) ≡ false

-- A host name or an address of digits, without brackets.
pub record IsHost (host : String) : Type 0 where
  pub no_open : has_char b'[' host ≡ false
  pub no_close : has_char b']' host ≡ false

rsplit-none : (c : ℕ) (s : String) → has_char c s ≡ false → rsplit c s ≡ none
unfolding rsplit has_char
rsplit-none c String.[] h = refl
rsplit-none c (String.◌∷◌ d s) h = ground (arith, rsplit-none c s)

rsplit-append :
    (s t : String) → has_char b':' t ≡ false → rsplit b':' (s ++ String.◌∷◌ ":" t) ≡ some (s, t)
unfolding rsplit
rsplit-append String.[] t h =
    rw (nil-append (String.◌∷◌ ":" t)) (rw (rsplit-none b':' t h, rsplit) refl)
rsplit-append (String.◌∷◌ d s) t h =
    rw (cons-append d s (String.◌∷◌ ":" t), rsplit) (rw (rsplit-append s t h) refl)

partition_close-append :
    (s t : String)
    → has_char b']' s ≡ false
    → partition_close (s ++ String.◌∷◌ "]" (String.◌∷◌ ":" t)) ≡ (s, t)
unfolding partition_close has_char
partition_close-append String.[] t h = rw (nil-append (String.◌∷◌ "]" (String.◌∷◌ ":" t))) refl
partition_close-append (String.◌∷◌ d s) t h =
    rw (cons-append d s (String.◌∷◌ "]" (String.◌∷◌ ":" t)))
      (ground (arith, partition_close-append s t))

split-append :
    (c : Char) (s t : String)
    → has_char (code c) s ≡ false
    → split (code c) (s ++ String.◌∷◌ c t) ≡ some (s, t)
unfolding split has_char
split-append c String.[] t h = rw (nil-append (String.◌∷◌ c t)) (ground arith)
split-append c (String.◌∷◌ d s) t h =
    rw (cons-append d s (String.◌∷◌ c t)) (ground (arith, split-append c s t))

module _ (py : Decimal) where
  split_plain-append :
      (host : String) (port : ℕ)
      → IsDecimal py port
      → split_plain py (host ++ String.◌∷◌ ":" (py.str port)) ≡ some (host, port)
  unfolding split_plain
  split_plain-append host port v =
      rw (rsplit-append host (py.str port) v.no_colon, split_plain) (rw (v.reads, with_port) refl)

  split_addr-append :
      (host t : String)
      → IsHost host
      → split_addr py (host ++ String.◌∷◌ ":" t) ≡ split_plain py (host ++ String.◌∷◌ ":" t)
  unfolding split_addr has_char
  split_addr-append String.[] t w = rw (nil-append (String.◌∷◌ ":" t)) refl
  split_addr-append (String.◌∷◌ d s) t w =
      let first = w.no_open in rw (cons-append d s (String.◌∷◌ ":" t)) (ground (arith, first))

  -- If the port is printed without a colon and read back, an address that was formatted of a host
  -- without brackets, with colons or without, is split into this host and port again.
  pub split_addr-format_addr :
      (host : String) (port : ℕ)
      → IsDecimal py port
      → IsHost host
      → split_addr py (format_addr py host port) ≡ some (host, port)
  unfolding split_addr format_addr
  split_addr-format_addr host port v w = elim (Bool-cases (has_char b':' host)) [
    | inl six ↦
        rw six
          (rw (partition_close-append host (py.str port) w.no_close) (rw (v.reads, with_port) refl))
    | inr four ↦ rw four (split_addr-append host (py.str port) w ∙ split_plain-append host port v)
  ]

  -- A process that listens on a host dials itself there, and on this machine if it listens on all.
  pub self_addr-format_addr :
      (host : String) (bound port : ℕ)
      → IsDecimal py bound
      → IsHost host
      → self_addr py (format_addr py host bound) port
        ≡ some (format_addr py (if is_wildcard host then "127.0.0.1" else host) port)
  unfolding self_addr
  self_addr-format_addr host bound port v w =
      rw (split_addr-format_addr host bound v w, self_addr) refl

-- `id=addr`
abbrev pub join : String × String → String
join (id, addr) = id ++ String.◌∷◌ "=" addr

-- No id holds the separator.
abbrev pub ArePlain : List (String × String) → Type 0
ArePlain [] = Unit
ArePlain ((id, addr) ∷ pairs) = (has_char b'=' id ≡ false) × ArePlain pairs

abbrev pub insert_pairs : List (String × String) → Dict String → Dict String
insert_pairs [] d = d
insert_pairs ((id, addr) ∷ pairs) d = insert_pairs pairs (insert id addr d)

parse_loop-map :
    (pairs : List (String × String)) (d : Dict String)
    → ArePlain pairs
    → parse_loop (map join pairs) d ≡ some (insert_pairs pairs d)
unfolding parse_loop
parse_loop-map [] d h = refl
parse_loop-map ((id, addr) ∷ pairs) d (plain, h) =
    rw (split-append "=" id addr plain, parse_loop) (parse_loop-map pairs (insert id addr d) h)

pub parse_peers-map :
    (pairs : List (String × String))
    → ArePlain pairs
    → parse_peers (map join pairs) ≡ some (insert_pairs pairs [])
unfolding parse_peers
parse_peers-map pairs h = parse_loop-map pairs [] h
