-- ===== src/Raft/Machine/Ballot.antt =====
-- What a vote says of the candidate's log: it has whatever the voter has acknowledged.
use native.Mathlib.Decide.{dec_lt}
use dssd.Prelude.{
  ℕ, suc, ◌+◌, ◌≤◌, ◌<◌, ◌≡◌, sym, ap, subst, ◌⊎◌, inl, inr, List, length, Bool-cases, arith,
}
use dssd.Raft.State.{Raft, LogEntry, last_entry}
use dssd.Raft.Log.{has_term, lt-of_has_term}
use dssd.Raft.Vote.{RequestVoteArgs}
use dssd.Raft.Vote.Grants.{UpToDate}
use dssd.Raft.Group.History.{History, Follows, Follows-take}
use dssd.Raft.Machine.Order.{Has, Ordered, Has-take, Follows-mono, Has-Follows}
use dssd.Raft.Machine.Kept.{Lost}

-- The last entry of a log that is not empty.
pub record Ends (r : Raft) : Type 0 where
  pub full : 0 < length r.log
  pub index : (last_entry r).index + 1 ≡ length r.log
  pub term : Has r.log (last_entry r).index (last_entry r).term

module _ (G : History) (ord : Ordered G) (mine theirs : List LogEntry) (f : Follows G mine)
    (f' : Follows G theirs) where
  -- An entry of the history under an entry of the log.
  pub Follows-Has : (i j a b : ℕ) → i ≤ j → Has theirs j b → Has (G b) i a → Has theirs i a
  Follows-Has i j a b le hj hi =
      Has-take (G b) theirs (suc j) i a (sym (Follows-take G theirs j b f' hj)) (omega arith) hi

  -- Logs with the same last term.
  same_last :
      (n t last last' top : ℕ)
      → n ≤ last
      → last ≤ last'
      → Has mine last top
      → Has theirs last' top
      → Has mine n t
      → Has theirs n t
  same_last n t last last' top le le' h h' has =
      Follows-Has n last' t top (omega arith) h' (Has-Follows G ord mine n last t top f le h has)

  -- A log with a later last term.
  newer_last :
      (n t last' top u : ℕ)
      → t < top
      → top ≤ u
      → Has theirs last' top
      → Has theirs n t ⊎ Lost G t n (u + 1)
  newer_last n t last' top u lt le h' = elim (Bool-cases (has_term (G top) n t)) [
    | inl yes' ↦ elim (dec_lt n last') [
      | yes before ↦ inl (Follows-Has n last' t top (omega arith) h' yes')
      | no behind ↦ absurd (
          omega (
            arith,
            ord.mono top last' n top t (omega arith)
                (Has-Follows G ord theirs last' last' top top f' (omega arith) h' h') yes',
          ))
    ]
    | inr no' ↦ inr (record {
      w = top;
      after = lt;
      before = omega arith;
      begun = omega (
        arith,
        lt-of_has_term (G top) last' top
            (Has-Follows G ord theirs last' last' top top f' (omega arith) h' h'),
      );
      lacks = no';
    })
  ]

  pub UpToDate-Has :
      (r : Raft) (args : RequestVoteArgs) (n t u : ℕ)
      → r.log ≡ mine
      → Ends r
      → UpToDate args (last_entry r)
      → Has theirs args.last_log_index args.last_log_term
      → args.last_log_term ≤ u
      → Has mine n t
      → Has theirs n t ⊎ Lost G t n (u + 1)
  unfolding UpToDate
  UpToDate-Has r args n t u same ends (inl newer) h' le has =
      newer_last n t args.last_log_index args.last_log_term u
        (omega (arith, newer, oldest r n t same ends has)) le h'
    where
      oldest : (r : Raft) (n t : ℕ) → r.log ≡ mine → Ends r → Has mine n t → t ≤ (last_entry r).term
      oldest r n t same ends has =
          Follows-mono G ord mine n (last_entry r).index t (last_entry r).term f
            (omega (arith, ends.index, ap length same, lt-of_has_term mine n t has)) has
            (subst (λ l. Has l (last_entry r).index (last_entry r).term) same ends.term)
  UpToDate-Has r args n t u same ends (inr (even, le')) h' le has = inl (
      same_last n t (last_entry r).index args.last_log_index (last_entry r).term
        (omega (arith, ends.index, ap length same, lt-of_has_term mine n t has)) le'
        (subst (λ l. Has l (last_entry r).index (last_entry r).term) same ends.term)
        (subst (Has theirs args.last_log_index) even h') has)
