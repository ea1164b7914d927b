-- ===== src/Raft/Apply/Deliver.antt =====
-- What `_applier` hands to `apply`.
use native.Mathlib.Nat.{add-zero}
use native.Mathlib.Numerals.{add-one}
use mathlib.Core.Path.{ap₂}
use dssd.Prelude.{
  ℕ, zero, suc, ◌+◌, ◌-◌, ◌≤◌, ◌<◌, ◌≡◌, ap, ◌∙◌, inl, inr, some, List, [], ◌∷◌, get_elem?, take,
  drop, length, Option-cases, get_elem?-of_lt, false, arith,
}
use dssd.Raft.State.{Raft, LogEntry}
use dssd.Raft.Apply.{apply_loop, applier}

-- `rounds` further entries are counted as applied, and nothing else changes.
abbrev pub applied : ℕ → Raft → Raft
applied n r = record r { last_applied = r.last_applied + n }

apply_loop-frame :
    (n : ℕ) (r r' : Raft) (es : List LogEntry) → apply_loop n r ≡ some (r', es) → r' ≡ applied n r
unfolding apply_loop
apply_loop-frame zero r r' es h = ground arith
apply_loop-frame (suc n) r r' es h = elim (Option-cases (get_elem? r.log (r.last_applied + 1))) [
  | inl e ↦ ground arith
  | inr (x, e) ↦ elim (Option-cases (apply_loop n (applied 1 r))) [
    | inl f ↦ ground arith
    | inr ((s, fs), f) ↦ ground (arith, apply_loop-frame n (applied 1 r) s fs f)
  ]
]

pub applier-frame :
    (r r' : Raft) (es : List LogEntry)
    → applier r ≡ some (r', es)
    → r' ≡ record (applied (r.commit_index - r.last_applied) r) { apply_signal = false }
unfolding applier
applier-frame r r' es h =
    apply_loop-frame (r.commit_index - r.last_applied) (record r { apply_signal = false }) r' es h

drop-get_elem? :
    (log : List LogEntry) (i : ℕ) (x : LogEntry)
    → get_elem? log i ≡ some x
    → drop i log ≡ x ∷ drop (suc i) log
drop-get_elem? [] i x h = ground arith
drop-get_elem? (y ∷ log) zero x h = ground arith
drop-get_elem? (y ∷ log) (suc i) x h = drop-get_elem? log i x h

slice-suc :
    (log : List LogEntry) (n i : ℕ) (x : LogEntry)
    → get_elem? log i ≡ some x
    → x ∷ take n (drop (i + 1) log) ≡ take (suc n) (drop i log)
slice-suc log n i x at = rw (add-one, drop-get_elem? log i x at)

apply_loop-suc :
    (n : ℕ) (r r' : Raft) (x : LogEntry) (es : List LogEntry)
    → get_elem? r.log (r.last_applied + 1) ≡ some x
    → apply_loop n (applied 1 r) ≡ some (r', es)
    → apply_loop (suc n) r ≡ some (r', x ∷ es)
unfolding apply_loop
apply_loop-suc n r r' x es at rest = ground arith

apply_loop-delivers :
    (n : ℕ) (r : Raft)
    → r.last_applied + n < length r.log
    → apply_loop n r ≡ some (applied n r, take n (drop (r.last_applied + 1) r.log))
apply_loop-delivers zero r h = unfold apply_loop in rw add-zero
apply_loop-delivers (suc n) r h =
    let (x, at) = get_elem?-of_lt r.log (r.last_applied + 1) (omega arith) in
    apply_loop-suc n r _ x _ at (apply_loop-delivers n (applied 1 r) (omega arith))
    ∙ ap₂ (λ k (es : List LogEntry). some (record r { last_applied = k }, es)) (omega arith)
        (slice-suc r.log n (r.last_applied + 1) x at)

-- With the last applied index at most the commit index, and the commit index inside the log, the
-- applier hands over exactly the entries behind the last applied one up to the commit index, each
-- once and in the order of the log, and ends with the two indices equal.
pub applier-delivers :
    (r : Raft)
    → r.last_applied ≤ r.commit_index
    → r.commit_index < length r.log
    → applier r
      ≡ some (
        record r { last_applied = r.commit_index; apply_signal = false },
        take (r.commit_index - r.last_applied) (drop (r.last_applied + 1) r.log),
      )
unfolding applier
applier-delivers r low high =
    apply_loop-delivers (r.commit_index - r.last_applied) (record r { apply_signal = false })
      (omega arith)
    ∙ ap (λ k. some (record r { last_applied = k; apply_signal = false }, es)) (omega arith)
  where
    es : List LogEntry
    es = take (r.commit_index - r.last_applied) (drop (r.last_applied + 1) r.log)
