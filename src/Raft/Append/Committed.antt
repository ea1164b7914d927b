-- ===== src/Raft/Append/Committed.antt =====
-- What `handle_append_entries` does to the entries up to the commit index.
use mathlib.Core.Path.{subst₂}
use dssd.Prelude.{
  ℕ, zero, suc, ◌+◌, ◌≤◌, ◌<◌, ◌≡◌, refl, sym, ap, inl, inr, true, List, [], ◌∷◌, ◌++◌, take,
  length, length-take, Bool-cases, arith,
}
use native.Mathlib.Decide.{dec_lt}
use dssd.Raft.State.{Raft, LogEntry}
use dssd.Raft.Log.{has_term}
use dssd.Raft.Vote.{observe_term}
use dssd.Raft.Append.{
  AppendEntriesArgs, append_loop, follow_commit, accept, follow, handle_append_entries,
}
use dssd.Raft.Append.Branches.{
  handle_append_entries-stale, handle_append_entries-mismatch, handle_append_entries-accept,
  follow-frame,
}
use dssd.Raft.Append.Again.{append_loop-hit, append_loop-miss}

-- No entry of the message contradicts an entry of the log up to place `c`.
abbrev pub Respects : List LogEntry → (c index : ℕ) → List LogEntry → Type 0
Respects log c index [] = Unit
Respects log c index (e ∷ es) =
    (index ≤ c → has_term log index e.term ≡ true) × Respects log c (index + 1) es

take-take :
    (log ys : List LogEntry) (n k : ℕ)
    → k ≤ n
    → k ≤ length log
    → take k (take n log ++ ys) ≡ take k log
take-take log ys n zero h l = refl
take-take [] ys n (suc k) h l = elim l [ ]
take-take (x ∷ log) ys zero (suc k) h l = elim h [ ]
take-take (x ∷ log) ys (suc n) (suc k) h l =
    ap (◌∷◌ x) (take-take log ys n k (omega arith) (omega arith))

append_loop-Respects :
    (c index : ℕ) (es log : List LogEntry)
    → c < length log
    → Respects log c index es
    → take (suc c) (append_loop index es log) ≡ take (suc c) log
append_loop-Respects c index [] log h r = unfold append_loop in refl
append_loop-Respects c index (e ∷ es) log h r = elim (Bool-cases (has_term log index e.term)) [
  | inl hit ↦
      rw (append_loop-hit index e es log hit) (append_loop-Respects c (index + 1) es log h r.1)
  | inr miss ↦
      rw (append_loop-miss index e es log miss)
        (take-take log (e ∷ es) index (suc c) (grind (arith, r.0)) h)
]

-- The committed entries stay, and stay committed.
pub record Commits (r s : Raft) : Type 0 where
  pub kept : take (suc r.commit_index) s.log ≡ take (suc r.commit_index) r.log
  pub grows : r.commit_index ≤ s.commit_index
  pub inside : s.commit_index < length s.log

length-kept :
    (c : ℕ) (log log' : List LogEntry)
    → c < length log
    → take (suc c) log' ≡ take (suc c) log
    → c < length log'
length-kept c log log' h e =
    omega (arith, ap length e, length-take (suc c) log, length-take (suc c) log')

accept-Commits :
    (args : AppendEntriesArgs) (r : Raft)
    → r.commit_index < length r.log
    → Respects r.log r.commit_index (args.prev_log_index + 1) args.entries
    → Commits r (accept args r)
unfolding accept follow_commit
accept-Commits args r inside respects = ground (
  arith,
  kept,
  length-kept r.commit_index r.log (append_loop (args.prev_log_index + 1) args.entries r.log) inside
      kept,
)
  where
    kept :
        take (suc r.commit_index) (append_loop (args.prev_log_index + 1) args.entries r.log)
        ≡ take (suc r.commit_index) r.log
    kept =
        append_loop-Respects r.commit_index (args.prev_log_index + 1) args.entries r.log inside
          respects

Commits-of_same :
    (r g s : Raft) → g.log ≡ r.log → g.commit_index ≡ r.commit_index → Commits g s → Commits r s
Commits-of_same r g s el ec c = record {
  kept = subst₂ (λ k log. take (suc k) s.log ≡ take (suc k) log) ec el c.kept;
  grows = omega (arith, c.grows);
  inside = c.inside;
}

Commits-refl : (r : Raft) → r.commit_index < length r.log → Commits r r
Commits-refl r h = record { kept = refl; grows = omega arith; inside = h }

-- If the commit index is inside the log and no entry of an AppendEntries message contradicts a
-- committed one, the handler removes no committed entry, the commit index does not fall, and it
-- stays inside the log.
pub handle_append_entries-Commits :
    (now : ℕ) (args : AppendEntriesArgs) (r : Raft)
    → r.commit_index < length r.log
    → Respects r.log r.commit_index (args.prev_log_index + 1) args.entries
    → Commits r (handle_append_entries now args r).0
handle_append_entries-Commits now args r inside respects = elim (dec_lt args.term r.current_term) [
  | yes old ↦ rw (handle_append_entries-stale now args r old) (Commits-refl r inside)
  | no fresh ↦
      let frame = follow-frame now args r (omega arith) in
      let g : Raft = follow now args (observe_term now args.term r) in
      elim (Bool-cases (has_term r.log args.prev_log_index args.prev_log_term)) [
        | inl has ↦ rw (handle_append_entries-accept now args r (omega arith) has) (
            Commits-of_same r g (accept args g) frame.0 frame.1 (
              accept-Commits args g (omega (arith, frame.1, ap length frame.0)) (
                subst₂ (λ log c. Respects log c (args.prev_log_index + 1) args.entries)
                  (sym frame.0) (sym frame.1) respects)))
        | inr lacks ↦ rw (handle_append_entries-mismatch now args r (omega arith) lacks) (
            Commits-of_same r g g frame.0 frame.1
              (Commits-refl g (omega (arith, frame.1, ap length frame.0))))
      ]
]
