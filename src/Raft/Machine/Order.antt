-- ===== src/Raft/Machine/Order.antt =====
-- The order of the terms in the logs of the history, and the requests' place in it.
use dssd.Prelude.{
  ℕ, zero, suc, ◌-◌, ◌≤◌, ◌<◌, ◌≡◌, refl, sym, ap, subst, ◌∙◌, ◌⊎◌, inl, inr, true, some, List, [],
  ◌∷◌, ◌++◌, get_elem?, get_elem?-of_lt, get_elem?-append, take, length, length-append,
  get_elem?-of_take, get_elem?-snoc, take-take_le, take-append, Bool-cases, ◌==◌, arith,
}
use dssd.Raft.State.{LogEntry}
use dssd.Raft.Log.{has_term, lt-of_has_term, has_term-get_elem?}
use dssd.Raft.Group.History.{History, Follows, Follows-take}
use dssd.Raft.Group.Lead.{with_log, with_log-miss, with_log-at, eq_of_test}
use native.Mathlib.Decide.{dec_lt}

get_elem?-same :
    (l m : List LogEntry) (i : ℕ) (e : LogEntry)
    → take (suc i) l ≡ take (suc i) m
    → get_elem? l i ≡ some e
    → get_elem? m i ≡ some e
get_elem?-same l m i e same at =
    (get_elem?-of_take m (suc i) i e (ap (λ n. get_elem? n i) (sym same) ∙ kept l i e at)).1
  where
    kept :
        (l : List LogEntry) (i : ℕ) (e : LogEntry)
        → get_elem? l i ≡ some e
        → get_elem? (take (suc i) l) i ≡ some e
    kept [] i e h = ground (arith, h)
    kept (x ∷ l) zero e h = h
    kept (x ∷ l) (suc i) e h = kept l i e h

-- Logs that begin alike begin alike up to any earlier place.
pub take-shorten :
    (l m : List LogEntry) (k n : ℕ) → k ≤ n → take n l ≡ take n m → take k l ≡ take k m
take-shorten l m k n le same =
    sym (take-take_le l k n le) ∙ ap (take k) same ∙ take-take_le m k n le

-- The entry at this place has this term.
abbrev pub Has : List LogEntry → ℕ → ℕ → Type 0
Has log i t = has_term log i t ≡ true

pub record Ordered (G : History) : Type 0 where
  pub mono : (s i j a b : ℕ) → i ≤ j → Has (G s) i a → Has (G s) j b → a ≤ b
  pub last : (s : ℕ) → 0 < length (G s) → Has (G s) (length (G s) - 1) s
  pub indexed : (s i : ℕ) (e : LogEntry) → get_elem? (G s) i ≡ some e → e.index ≡ i

pub has_term-take :
    (l : List LogEntry) (k i t : ℕ) → i < k → has_term (take k l) i t ≡ has_term l i t
unfolding has_term
has_term-take l zero i t lt = elim lt [ ]
has_term-take [] (suc k) i t lt = refl
has_term-take (x ∷ l) (suc k) zero t lt = refl
has_term-take (x ∷ l) (suc k) (suc i) t lt = has_term-take l k i t (omega arith)

-- Two logs that begin alike have the same terms there.
pub Has-take :
    (l m : List LogEntry) (k i t : ℕ) → take k l ≡ take k m → i < k → Has l i t → Has m i t
Has-take l m k i t same lt h =
    sym (has_term-take m k i t lt)
    ∙ ap (λ n. has_term n i t) (sym same)
    ∙ has_term-take l k i t lt
    ∙ h

pub Has-prefix : (l : List LogEntry) (k i t : ℕ) → i < k → Has l i t → Has (take k l) i t
Has-prefix l k i t lt h = has_term-take l k i t lt ∙ h

pub Has-inj : (l : List LogEntry) (i a b : ℕ) → Has l i a → Has l i b → a ≡ b
unfolding has_term
Has-inj l i a b h k = ground arith

pub Has-entry :
    (l : List LogEntry) (i : ℕ)
    → i < length l
    → (e : LogEntry) × (get_elem? l i ≡ some e) × Has l i e.term
Has-entry l i lt = let (e, at) = get_elem?-of_lt l i lt in (e, at, has_term-get_elem? l i e at)

pub Has-append : (l ys : List LogEntry) (i t : ℕ) → Has l i t → Has (l ++ ys) i t
Has-append l ys i t h =
    Has-take l (l ++ ys) (suc i) i t
      (sym (take-append l ys (suc i) (omega (arith, lt-of_has_term l i t h)))) (omega arith) h

pub Has-snoc :
    (l : List LogEntry) (e : LogEntry) (i t : ℕ)
    → Has (l ++ e ∷ []) i t
    → Has l i t ⊎ ((i ≡ length l) × (t ≡ e.term))
Has-snoc l e i t h = elim (dec_lt i (length l)) [
  | yes below ↦ inl (
      Has-take (l ++ e ∷ []) l (suc i) i t (take-append l (e ∷ []) (suc i) (omega arith))
        (omega arith) h)
  | no above ↦
      let at : i ≡ length l =
        omega (arith, lt-of_has_term (l ++ e ∷ []) i t h, length-append l (e ∷ [])) in
      inr (
        at,
        Has-inj (l ++ e ∷ []) i t e.term h (
            has_term-get_elem? (l ++ e ∷ []) i e
              (subst (λ j. get_elem? (l ++ e ∷ []) j ≡ some e) (sym at) (get_elem?-append l e))),
      )
]

module _ (G : History) (ord : Ordered G) where
  -- No entry is of a newer term than its log's.
  pub Has-le : (s i a : ℕ) → Has (G s) i a → a ≤ s
  Has-le s i a h =
      let lt = lt-of_has_term (G s) i a h in
      ord.mono s i (length (G s) - 1) a s (omega arith) h (ord.last s (omega arith))

  pub Has-Follows :
      (log : List LogEntry) (i j a b : ℕ)
      → Follows G log
      → i ≤ j
      → Has log j b
      → Has log i a
      → Has (G b) i a
  Has-Follows log i j a b f le hj hi =
      Has-take log (G b) (suc j) i a (Follows-take G log j b f hj) (omega arith) hi

  pub Follows-mono :
      (log : List LogEntry) (i j a b : ℕ)
      → Follows G log
      → i ≤ j
      → Has log i a
      → Has log j b
      → a ≤ b
  Follows-mono log i j a b f le hi hj =
      ord.mono b i j a b le (Has-Follows log i j a b f le hj hi)
        (Has-Follows log j j b b f (omega arith) hj hj)

  pub Follows-indexed :
      (log : List LogEntry) (i : ℕ) (e : LogEntry)
      → Follows G log
      → get_elem? log i ≡ some e
      → e.index ≡ i
  Follows-indexed log i e f at =
      ord.indexed e.term i e (get_elem?-same log (G e.term) i e (f.at i e at).1 at)

  module _ (t : ℕ) (log : List LogEntry) (e : LogEntry) (f : Follows G log)
      (below : (i a : ℕ) → Has log i a → a ≤ t) (term : e.term ≡ t)
      (index : e.index ≡ length log) where
    snoc_mono : (i j a b : ℕ) → i ≤ j → Has (log ++ e ∷ []) i a → Has (log ++ e ∷ []) j b → a ≤ b
    snoc_mono i j a b le hi hj = elim (Has-snoc log e j b hj) [
      | inl old ↦ elim (Has-snoc log e i a hi) [
        | inl older ↦ Follows-mono log i j a b f le older old
        | inr (at, _) ↦ absurd (omega (arith, lt-of_has_term log j b old))
      ]
      | inr (_, new) ↦ elim (Has-snoc log e i a hi) [
        | inl older ↦ omega (arith, below i a older)
        | inr (_, same) ↦ omega arith
      ]
    ]

    snoc_last : Has (log ++ e ∷ []) (length (log ++ e ∷ []) - 1) t
    snoc_last =
        let at : length log ≡ length (log ++ e ∷ []) - 1 =
          omega (arith, length-append log (e ∷ [])) in
        subst (λ i. Has (log ++ e ∷ []) i t) at
          (subst (Has (log ++ e ∷ []) (length log)) term
            (has_term-get_elem? (log ++ e ∷ []) (length log) e (get_elem?-append log e)))

    snoc_indexed : (i : ℕ) (x : LogEntry) → get_elem? (log ++ e ∷ []) i ≡ some x → x.index ≡ i
    snoc_indexed i x at = elim (get_elem?-snoc log e x i at) [
      | inl old ↦ Follows-indexed log i x f old
      | inr (last, same) ↦ ap (λ (y : LogEntry). y.index) same ∙ index ∙ sym last
    ]

  -- The history with a new entry of the term of its maker.
  pub Ordered-make :
      (t : ℕ) (log : List LogEntry) (e : LogEntry)
      → Follows G log
      → ((i a : ℕ) → Has log i a → a ≤ t)
      → e.term ≡ t
      → e.index ≡ length log
      → Ordered (with_log G t (log ++ e ∷ []))
  Ordered-make t log e f below term index = record {
    mono = λ s i j a b le hi hj. elim (Bool-cases (s == t)) [
      | inl hit ↦
          snoc_mono t log e f below term index i j a b le
            (subst (λ l. Has l i a) (with_log-at G t s _ hit) hi)
            (subst (λ l. Has l j b) (with_log-at G t s _ hit) hj)
      | inr miss ↦
          ord.mono s i j a b le (subst (λ l. Has l i a) (with_log-miss G t s _ miss) hi)
            (subst (λ l. Has l j b) (with_log-miss G t s _ miss) hj)
    ];
    last = λ s pos. elim (Bool-cases (s == t)) [
      | inl hit ↦ rw (with_log-at G t s (log ++ e ∷ []) hit) (
          subst (Has (log ++ e ∷ []) (length (log ++ e ∷ []) - 1)) (eq_of_test s t hit)
            (snoc_last t log e f below term index))
      | inr miss ↦
          rw (with_log-miss G t s (log ++ e ∷ []) miss)
            (ord.last s (subst (λ l. 0 < length l) (with_log-miss G t s _ miss) pos))
    ];
    indexed = λ s i x at. elim (Bool-cases (s == t)) [
      | inl hit ↦
          snoc_indexed t log e f below term index i x
            (subst (λ l. get_elem? l i ≡ some x) (with_log-at G t s _ hit) at)
      | inr miss ↦
          ord.indexed s i x (subst (λ l. get_elem? l i ≡ some x) (with_log-miss G t s _ miss) at)
    ];
  }
