-- ===== src/Raft/Append/Merge.antt =====
-- The loop of `handle_append_entries` on logs alone.
use native.Mathlib.Numerals.{add-one}
use dssd.Prelude.{
  ℕ, suc, ◌+◌, ◌≤◌, ◌≡◌, refl, sym, ap, subst, ◌∙◌, ◌⊎◌, inl, inr, true, List, [], ◌∷◌, ◌++◌, take,
  drop, length, take-append-drop, take-all, length-take, Bool-cases, arith,
}
use dssd.Raft.State.{LogEntry}
use dssd.Raft.Log.{
  has_term, Matching, has_term-get_elem?, get_elem?-drop, drop-eq-nil, lt-of_has_term,
}
use dssd.Raft.Append.{append_loop}

-- Every entry of the message is in the log, by its term.
abbrev pub Holds : List LogEntry → ℕ → List LogEntry → Type 0
Holds log index [] = Unit
Holds log index (e ∷ es) = (has_term log index e.term ≡ true) × Holds log (index + 1) es

-- A message whose entries are all at hand changes nothing, also when more entries follow them.
pub append_loop-Holds :
    (index : ℕ) (es log : List LogEntry) → Holds log index es → append_loop index es log ≡ log
unfolding append_loop
append_loop-Holds index [] log h = refl
append_loop-Holds index (e ∷ es) log h = ground (arith, append_loop-Holds (index + 1) es log h.1)

-- With a log that matches the leader's, the loop leaves a log that begins with the whole of the
-- leader's, or takes the leader's over.
unfoldable pub Merged : (f l log : List LogEntry) → Type 0
Merged f l log = ((log ≡ f) × (take (length l) f ≡ l)) ⊎ (log ≡ l)

pub merge :
    (f l es : List LogEntry) (i : ℕ)
    → Matching f l
    → i ≤ length l
    → take i f ≡ take i l
    → drop i l ≡ es
    → Merged f l (append_loop i es f)
unfolding append_loop Merged
merge f l [] i m le same rest =
    let end : i ≡ length l = omega (arith, drop-eq-nil l i rest) in
    inl (refl, subst (λ k. take k f ≡ l) end (same ∙ take-all i l (omega arith)))
merge f l (e ∷ es) i m le same rest = elim (Bool-cases (has_term f i e.term)) [
  | inl hit ↦ rw hit (
      merge f l es (i + 1) m (omega (arith, lt-of_has_term l i e.term there))
        (rw add-one (m.agree i e.term hit there)) (rw add-one next))
  | inr miss ↦
      rw miss
        (inr (ap (λ t. t ++ e ∷ es) same ∙ ap (◌++◌ (take i l)) (sym rest) ∙ take-append-drop i l))
]
  where
    next : drop (suc i) l ≡ es
    next = (get_elem?-drop l i e es rest).1

    there : has_term l i e.term ≡ true
    there = has_term-get_elem? l i e (get_elem?-drop l i e es rest).0

-- A merge keeps the match with every third log.
pub Merged-Matching :
    (f l m log : List LogEntry) → Matching f m → Matching l m → Merged f l log → Matching log m
unfolding Merged
Merged-Matching f l m log fm lm (inl (e, _)) = rw e fm
Merged-Matching f l m log fm lm (inr e) = rw e lm

pub Merged-length : (f l log : List LogEntry) → Merged f l log → length l ≤ length log
unfolding Merged
Merged-length f l log (inl (e, whole)) =
    omega (arith, ap length e, ap length whole, length-take (length l) f)
Merged-length f l log (inr e) = omega (arith, ap length e)
