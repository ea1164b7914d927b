-- ===== src/Prelude/Count.antt =====
-- How many entries of a list pass a test, and two majorities that must meet.
use Prim.Native.Nat.{ℕ, ◌+◌, ◌≤◌, ◌<◌}
use Prim.Native.String.{String}
use mathlib.Core.Path.{◌≡◌, refl}
use mathlib.Core.Bool.{Bool, true, false, ◌||◌}
use mathlib.Core.Logic.{inl, inr}
use mathlib.Core.List.{List, [], ◌∷◌, ◌++◌}
use native.Mathlib.Omega.{arith}
use text.Mathlib.TextEquality.{eq_iff}
use dssd.Prelude.Tests.{if◌then◌else◌, str_eq, Bool-cases}
use dssd.Prelude.Lists.{length}

-- `x in xs`
abbrev pub contains : List String → String → Bool
contains [] a = false
contains (x ∷ xs) a = str_eq x a || contains xs a

pub contains-append :
    (xs ys : List String) (a : String) → contains (xs ++ ys) a ≡ (contains xs a || contains ys a)
contains-append [] ys a = refl
contains-append (x ∷ xs) ys a = ground (arith, contains-append xs ys a)

module _ {ℓ} {A : Type ℓ} where
  -- `sum(1 for x in xs if p(x))`
  abbrev pub count : (A → Bool) → List A → ℕ
  count p [] = 0
  count p (x ∷ xs) = (if p x then 1 else 0) + count p xs

  pub count-le-length : (p : A → Bool) (xs : List A) → count p xs ≤ length xs
  count-le-length p [] = omega arith
  count-le-length p (x ∷ xs) = ground (arith, count-le-length p xs)

  pub count_mono :
      (p q : A → Bool) (xs : List A) → ((x : A) → p x ≡ true → q x ≡ true) → count p xs ≤ count q xs
  count_mono p q [] h = omega arith
  count_mono p q (x ∷ xs) h = ground (arith, h x, count_mono p q xs h)

  -- Two tests that together pass more often than there are entries both pass somewhere.
  pub count_overlap :
      (p q : A → Bool) (xs : List A)
      → length xs < count p xs + count q xs
      → (x : A) × (p x ≡ true) × (q x ≡ true)
  count_overlap p q [] h = elim h [ ]
  count_overlap p q (x ∷ xs) h = elim (Bool-cases (p x)) [
    | inl px ↦ elim (Bool-cases (q x)) [
      | inl qx ↦ (x, px, qx)
      | inr qx ↦ count_overlap p q xs (ground arith)
    ]
    | inr px ↦ count_overlap p q xs (ground arith)
  ]

-- A test that passes for one more member counts at least one more.
pub count_grow :
    (p q : String → Bool) (xs : List String) (a : String)
    → contains xs a ≡ true
    → ((x : String) → p x ≡ true → q x ≡ true)
    → p a ≡ false
    → q a ≡ true
    → count p xs + 1 ≤ count q xs
count_grow p q [] a m h pa qa = ground arith
count_grow p q (x ∷ xs) a m h pa qa = elim (Bool-cases (str_eq x a)) [
  | inl e ↦ ground (arith, eq_iff x a, h x, count_mono p q xs h)
  | inr e ↦ ground (arith, h x, count_grow p q xs a (ground arith) h pa qa)
]
