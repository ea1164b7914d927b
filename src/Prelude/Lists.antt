-- ===== src/Prelude/Lists.antt =====
-- Lists measured and indexed by native numbers, under the library's names.
use Prim.Native.Nat.{ℕ, zero, suc, ◌+◌, ◌-◌, ◌≤◌, ◌<◌, min}
use mathlib.Core.Path.{◌≡◌, refl, sym, ap}
use mathlib.Core.List.{List, [], ◌∷◌, ◌++◌, map}
use mathlib.Core.Logic.{◌⊎◌, inl, inr}
use mathlib.Core.Option.{Option, none, some}
use native.Mathlib.Omega.{arith}
use dssd.Prelude.Tests.{some_inj}

module _ {ℓ} {A : Type ℓ} where
  abbrev pub length : List A → ℕ
  length [] = 0
  length (x ∷ xs) = suc (length xs)

  abbrev pub get_elem? : List A → ℕ → Option A
  get_elem? [] i = none
  get_elem? (x ∷ xs) zero = some x
  get_elem? (x ∷ xs) (suc i) = get_elem? xs i

  -- `xs[:n]`
  abbrev pub take : ℕ → List A → List A
  take zero xs = []
  take (suc n) [] = []
  take (suc n) (x ∷ xs) = x ∷ take n xs

  -- `xs[n:]`
  abbrev pub drop : ℕ → List A → List A
  drop zero xs = xs
  drop (suc n) [] = []
  drop (suc n) (x ∷ xs) = drop n xs

  -- `xs[-1]`, with what to return where Python raises IndexError
  abbrev pub get_last_or : List A → A → A
  get_last_or [] d = d
  get_last_or (x ∷ xs) d = get_last_or xs x

  pub length-append : (xs ys : List A) → length (xs ++ ys) ≡ length xs + length ys
  length-append [] ys = omega arith
  length-append (x ∷ xs) ys = omega (arith, length-append xs ys)

  pub length-take : (n : ℕ) (xs : List A) → length (take n xs) ≡ min n (length xs)
  length-take zero xs = omega arith
  length-take (suc n) [] = omega arith
  length-take (suc n) (x ∷ xs) = omega (arith, length-take n xs)

  pub length-drop : (n : ℕ) (xs : List A) → length (drop n xs) ≡ length xs - n
  length-drop zero xs = omega arith
  length-drop (suc n) [] = omega arith
  length-drop (suc n) (x ∷ xs) = omega (arith, length-drop n xs)

  pub take-append-drop : (n : ℕ) (xs : List A) → take n xs ++ drop n xs ≡ xs
  take-append-drop zero xs = refl
  take-append-drop (suc n) [] = refl
  take-append-drop (suc n) (x ∷ xs) = ap (◌∷◌ x) (take-append-drop n xs)

  pub take-all : (n : ℕ) (xs : List A) → length xs ≤ n → take n xs ≡ xs
  take-all zero [] h = refl
  take-all zero (x ∷ xs) h = elim h [ ]
  take-all (suc n) [] h = refl
  take-all (suc n) (x ∷ xs) h = ap (◌∷◌ x) (take-all n xs (omega arith))

  -- An index below the length holds an entry.
  pub get_elem?-of_lt : (xs : List A) (i : ℕ) → i < length xs → (a : A) × (get_elem? xs i ≡ some a)
  get_elem?-of_lt [] i h = elim h [ ]
  get_elem?-of_lt (x ∷ xs) zero h = (x, refl)
  get_elem?-of_lt (x ∷ xs) (suc i) h = get_elem?-of_lt xs i (omega arith)

  pub lt-of_get_elem? : (xs : List A) (i : ℕ) {a : A} → get_elem? xs i ≡ some a → i < length xs
  lt-of_get_elem? [] i h = ground arith
  lt-of_get_elem? (x ∷ xs) zero h = omega arith
  lt-of_get_elem? (x ∷ xs) (suc i) h = omega (arith, lt-of_get_elem? xs i h)

  -- The entry that was appended last.
  pub get_elem?-append : (xs : List A) (x : A) → get_elem? (xs ++ x ∷ []) (length xs) ≡ some x
  get_elem?-append [] x = refl
  get_elem?-append (y ∷ xs) x = get_elem?-append xs x

module _ {ℓ κ} {A : Type ℓ} {B : Type κ} where
  pub length-map : (f : A → B) (xs : List A) → length (map f xs) ≡ length xs
  length-map f [] = refl
  length-map f (x ∷ xs) = ap suc (length-map f xs)

-- To split on a computed list and keep the equation.
pub List-cases {ℓ} :
    {A : Type ℓ} (xs : List A) → (xs ≡ []) ⊎ ((y : A) × (ys : List A) × (xs ≡ y ∷ ys))
List-cases [] = inl refl
List-cases (y ∷ ys) = inr (y, ys, refl)

-- An entry of a list with one more at its end.
pub get_elem?-snoc {ℓ} :
    {A : Type ℓ} (xs : List A) (x p : A) (j : ℕ)
    → get_elem? (xs ++ x ∷ []) j ≡ some p
    → (get_elem? xs j ≡ some p) ⊎ ((j ≡ length xs) × (p ≡ x))
get_elem?-snoc [] x p zero h = inr (refl, sym (some_inj h))
get_elem?-snoc [] x p (suc j) h = ground (arith, h)
get_elem?-snoc (y ∷ xs) x p zero h = inl h
get_elem?-snoc (y ∷ xs) x p (suc j) h = elim (get_elem?-snoc xs x p j h) [
  | inl before ↦ inl before
  | inr (e, last) ↦ inr (ap suc e, last)
]

-- What `take` leaves alone.
pub get_elem?-of_take {ℓ} :
    {A : Type ℓ} (xs : List A) (n i : ℕ) (x : A)
    → get_elem? (take n xs) i ≡ some x
    → (i < n) × (get_elem? xs i ≡ some x)
get_elem?-of_take xs zero i x h = ground arith
get_elem?-of_take [] (suc n) i x h = ground arith
get_elem?-of_take (y ∷ xs) (suc n) zero x h = (omega arith, h)
get_elem?-of_take (y ∷ xs) (suc n) (suc i) x h =
    let (lt, e) = get_elem?-of_take xs n i x h in (omega arith, e)

pub take-take_le {ℓ} : {A : Type ℓ} (xs : List A) (k n : ℕ) → k ≤ n → take k (take n xs) ≡ take k xs
take-take_le xs zero n h = refl
take-take_le xs (suc k) zero h = elim h [ ]
take-take_le [] (suc k) (suc n) h = refl
take-take_le (x ∷ xs) (suc k) (suc n) h = ap (◌∷◌ x) (take-take_le xs k n (omega arith))

pub take-append {ℓ} :
    {A : Type ℓ} (xs ys : List A) (k : ℕ) → k ≤ length xs → take k (xs ++ ys) ≡ take k xs
take-append xs ys zero h = refl
take-append [] ys (suc k) h = elim h [ ]
take-append (x ∷ xs) ys (suc k) h = ap (◌∷◌ x) (take-append xs ys k (omega arith))
