-- ===== src/Raft/Append/Again.antt =====
-- A message that arrives again, after others: the loop of `handle_append_entries` and the whole handler.
use dssd.Prelude.{
  ◌⊎◌, ℕ, zero, suc, ◌+◌, ◌≤◌, ◌<◌, ◌≡◌, refl, sym, ap, subst, ◌∙◌, true, false, List, [], ◌∷◌,
  ◌++◌, take, length, get_elem?, Bool-cases, inl, inr, arith,
}
use native.Mathlib.Nat.{zero-add, suc-add, add-zero}
use native.Mathlib.Decide.{dec_lt}
use dssd.Raft.State.{Raft, LogEntry}
use dssd.Raft.Vote.{observe_term}
use dssd.Raft.Vote.Grants.{observe_term-old}
use dssd.Raft.Log.{has_term, lt-of_has_term, has_term-get_elem?}
use dssd.Raft.Append.{
  AppendEntriesArgs, AppendEntriesReply, append_loop, follow_commit, accept, follow,
  handle_append_entries,
}
use dssd.Raft.Append.Branches.{
  handle_append_entries-stale, handle_append_entries-mismatch, handle_append_entries-accept,
  accept-log, follow-frame,
}
use dssd.Raft.Append.Merge.{Holds, append_loop-Holds}

get_elem?-take :
    (log ys : List LogEntry) (n i : ℕ)
    → i < n
    → n ≤ length log
    → get_elem? (take n log ++ ys) i ≡ get_elem? log i
get_elem?-take log ys zero i h k = elim h [ ]
get_elem?-take [] ys (suc n) i h k = elim k [ ]
get_elem?-take (x ∷ log) ys (suc n) zero h k = refl
get_elem?-take (x ∷ log) ys (suc n) (suc i) h k =
    get_elem?-take log ys n i (omega arith) (omega arith)

get_elem?-behind :
    (log ys : List LogEntry) (n : ℕ)
    → n ≤ length log
    → (j : ℕ) → get_elem? (take n log ++ ys) (n + j) ≡ get_elem? ys j
get_elem?-behind log ys zero k j = rw zero-add
get_elem?-behind [] ys (suc n) k j = elim k [ ]
get_elem?-behind (x ∷ log) ys (suc n) k j = rw suc-add (get_elem?-behind log ys n (omega arith) j)

-- What lies before the new entries stays.
append_loop-before :
    (index : ℕ) (es log : List LogEntry) (i t : ℕ)
    → i < index
    → index ≤ length log
    → has_term (append_loop index es log) i t ≡ has_term log i t
unfolding append_loop has_term
append_loop-before index [] log i t h k = refl
append_loop-before index (e ∷ es) log i t h k = elim (Bool-cases (has_term log index e.term)) [
  | inl hit ↦ rw hit (
      append_loop-before (index + 1) es log i t (omega arith)
        (omega (arith, lt-of_has_term log index e.term hit)))
  | inr miss ↦ rw miss (rw (has_term, get_elem?-take log (e ∷ es) index i h k))
]

-- A list of entries that the log has from place `n` on is held there.
Holds-of_get_elem? :
    (log es : List LogEntry) (n : ℕ)
    → ((i : ℕ) → get_elem? log (n + i) ≡ get_elem? es i)
    → Holds log n es
Holds-of_get_elem? log [] n h = tt
Holds-of_get_elem? log (e ∷ es) n h = (
  has_term-get_elem? log n e (rw add-zero at (h 0)),
  Holds-of_get_elem? log es (n + 1)
      λ i. subst (λ k. get_elem? log k ≡ get_elem? es i) (omega arith) (h (suc i)),
)

pub append_loop-hit :
    (index : ℕ) (e : LogEntry) (es log : List LogEntry)
    → has_term log index e.term ≡ true
    → append_loop index (e ∷ es) log ≡ append_loop (index + 1) es log
unfolding append_loop
append_loop-hit index e es log hit = rw hit

pub append_loop-miss :
    (index : ℕ) (e : LogEntry) (es log : List LogEntry)
    → has_term log index e.term ≡ false
    → append_loop index (e ∷ es) log ≡ take index log ++ e ∷ es
unfolding append_loop
append_loop-miss index e es log miss = rw miss

append_loop-Holds_after :
    (index : ℕ) (es log : List LogEntry)
    → index ≤ length log
    → Holds (append_loop index es log) index es
append_loop-Holds_after index [] log k = tt
append_loop-Holds_after index (e ∷ es) log k = elim (Bool-cases (has_term log index e.term)) [
  | inl hit ↦
      let below : index + 1 ≤ length log = omega (arith, lt-of_has_term log index e.term hit) in
      subst (λ l. Holds l index (e ∷ es)) (sym (append_loop-hit index e es log hit))
        (
          append_loop-before (index + 1) es log index e.term (omega arith) below ∙ hit,
          append_loop-Holds_after (index + 1) es log below,
        )
  | inr miss ↦
      subst (λ l. Holds l index (e ∷ es)) (sym (append_loop-miss index e es log miss))
        (Holds-of_get_elem? _ (e ∷ es) index (get_elem?-behind log (e ∷ es) index k))
]

-- What a log has, it has with more entries behind.
has_term-append :
    (log ys : List LogEntry) (i t : ℕ) → has_term log i t ≡ true → has_term (log ++ ys) i t ≡ true
unfolding has_term
has_term-append [] ys i t h = ground (arith, h)
has_term-append (x ∷ log) ys zero t h = h
has_term-append (x ∷ log) ys (suc i) t h = has_term-append log ys i t h

Holds-append :
    (log ys : List LogEntry) (n : ℕ) (es : List LogEntry) → Holds log n es → Holds (log ++ ys) n es
Holds-append log ys n [] h = tt
Holds-append log ys n (e ∷ es) h =
    (has_term-append log ys n e.term h.0, Holds-append log ys (n + 1) es h.1)

-- An old message has changed nothing that counts.
pub record Unmoved (args : AppendEntriesArgs) (s s' : Raft) : Type 0 where
  pub log : s'.log ≡ s.log
  pub commit : s.commit_index ≤ s'.commit_index
  pub inside : s'.commit_index < length s'.log
  pub bound : (s'.commit_index ≡ s.commit_index) ⊎ (s'.commit_index ≤ args.leader_commit)
  pub term : s'.current_term ≡ s.current_term
  pub vote : s'.voted_for ≡ s.voted_for

-- A follower that accepts a message whose entries are all at hand.
accept-Unmoved :
    (later : ℕ) (args : AppendEntriesArgs) (s : Raft)
    → Holds s.log (args.prev_log_index + 1) args.entries
    → s.commit_index < length s.log
    → Unmoved args s (accept args (follow later args s))
unfolding accept follow follow_commit
accept-Unmoved later args s held inside =
    let same = append_loop-Holds (args.prev_log_index + 1) args.entries s.log held in
    ground (arith, same, ap length same)

module _ (now later : ℕ) (args : AppendEntriesArgs) (r s : Raft) (ys : List LogEntry) where
  followed : Raft
  followed = follow now args (observe_term now args.term r)

  accepted :
      r.current_term ≤ args.term
      → has_term r.log args.prev_log_index args.prev_log_term ≡ true
      → s.log ≡ (accept args followed).log ++ ys
      → s.current_term ≡ args.term
      → s.commit_index < length s.log
      → ((handle_append_entries later args s).1 ≡ record { term = args.term; success = true })
        × Unmoved args s (handle_append_entries later args s).0
  unfolding followed
  accepted newer has grown term inside =
      rw (handle_append_entries-accept later args s (omega (arith, term)) there) (
        rw (observe_term-old later args.term s (omega (arith, term)))
          (refl, accept-Unmoved later args s held inside))
    where
      log : (accept args followed).log ≡ append_loop (args.prev_log_index + 1) args.entries r.log
      log =
          accept-log args followed
          ∙ ap (append_loop (args.prev_log_index + 1) args.entries)
              (follow-frame now args r newer).0

      within : args.prev_log_index + 1 ≤ length r.log
      within = omega (arith, lt-of_has_term r.log args.prev_log_index args.prev_log_term has)

      whole : s.log ≡ append_loop (args.prev_log_index + 1) args.entries r.log ++ ys
      whole = grown ∙ ap (λ l. l ++ ys) log

      there : has_term s.log args.prev_log_index args.prev_log_term ≡ true
      there = rw whole (
          has_term-append (append_loop (args.prev_log_index + 1) args.entries r.log) ys
            args.prev_log_index args.prev_log_term
            (append_loop-before (args.prev_log_index + 1) args.entries r.log args.prev_log_index
                args.prev_log_term (omega arith) within
              ∙ has))

      held : Holds s.log (args.prev_log_index + 1) args.entries
      held = rw whole (
          Holds-append (append_loop (args.prev_log_index + 1) args.entries r.log) ys
            (args.prev_log_index + 1) args.entries
            (append_loop-Holds_after (args.prev_log_index + 1) args.entries r.log within))

  -- A repeated message. If a node has accepted an AppendEntries message, and the same message
  -- comes to a node that is still in the message's term, whose log is the one that was left or
  -- begins with it, and whose commit index lies inside its log, then the reply is the same, the
  -- log stays as it is with all that has come after the message's entries, the term and the vote
  -- stay, and the commit index does not fall, stays inside the log, and moves no further than the
  -- message's.
  pub handle_append_entries_again :
      (handle_append_entries now args r).1.success ≡ true
      → s.log ≡ (handle_append_entries now args r).0.log ++ ys
      → s.current_term ≡ args.term
      → s.commit_index < length s.log
      → ((handle_append_entries later args s).1 ≡ (handle_append_entries now args r).1)
        × Unmoved args s (handle_append_entries later args s).0
  unfolding followed
  handle_append_entries_again ok grown term inside = elim (dec_lt args.term r.current_term) [
    | yes old ↦
        let h =
          ap (λ (x : Raft × AppendEntriesReply). x.1.success)
            (handle_append_entries-stale now args r old) in
        absurd (ground (arith, h, ok))
    | no fresh ↦ elim (Bool-cases (has_term r.log args.prev_log_index args.prev_log_term)) [
      | inl has ↦
          let e = handle_append_entries-accept now args r (omega arith) has in
          rw e (
            accepted (omega arith) has
              (grown ∙ ap (λ (x : Raft × AppendEntriesReply). x.0.log ++ ys) e) term inside)
      | inr lacks ↦
          let h =
            ap (λ (x : Raft × AppendEntriesReply). x.1.success)
              (handle_append_entries-mismatch now args r (omega arith) lacks) in
          absurd (ground (arith, h, ok))
    ]
  ]
