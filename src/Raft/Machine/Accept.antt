-- ===== src/Raft/Machine/Accept.antt =====
-- A follower that takes a request's entries over, and what it has acknowledged.
use native.Mathlib.Decide.{dec_lt}
use native.Mathlib.Numerals.{add-one}
use dssd.Prelude.{
  ℕ, suc, ◌+◌, ◌-◌, ◌≤◌, ◌<◌, ◌≡◌, sym, ap, subst, ◌∙◌, ◌⊎◌, inl, inr, List, [], ◌∷◌, length,
  length-take, take, take-all, take-take_le, drop, Bool-cases, arith,
}
use dssd.Raft.State.{LogEntry}
use dssd.Raft.Log.{has_term, lt-of_has_term, has_term-get_elem?, get_elem?-drop}
use dssd.Raft.Append.{AppendEntriesArgs, append_loop}
use dssd.Raft.Append.Merge.{Holds, append_loop-Holds, Merged, merge}
use dssd.Raft.Group.History.{History, Follows, Follows-take, Follows-Matching, Follows-prefix}
use dssd.Raft.Machine.Order.{Has, take-shorten, Ordered, Has-take, Has-prefix}
use dssd.Raft.Machine.Kept.{Lost}

-- The place behind a request's last entry.
abbrev pub end_of : AppendEntriesArgs → ℕ
end_of args = suc args.prev_log_index + length args.entries

-- A request holds a part of its term's log, and ends with an entry of this term.
pub record Placed (G : History) (args : AppendEntriesArgs) : Type 0 where
  pub inside : end_of args ≤ length (G args.term)
  pub last : Has (G args.term) (end_of args - 1) args.term
  pub prev : Has (G args.term) args.prev_log_index args.prev_log_term
  pub rest : drop (suc args.prev_log_index) (take (end_of args) (G args.term)) ≡ args.entries

Holds-take : (f l es : List LogEntry) (i : ℕ) → drop i l ≡ es → take (length l) f ≡ l → Holds f i es
Holds-take f l [] i rest same = tt
Holds-take f l (e ∷ es) i rest same =
    let (at, next) = get_elem?-drop l i e es rest in
    let here : Has l i e.term = has_term-get_elem? l i e at in
    (
      Has-take l f (length l) i e.term (take-all (length l) l (omega arith) ∙ sym same)
          (lt-of_has_term l i e.term here) here,
      Holds-take f l es (i + 1) (rw add-one next) same,
    )

module _ (G : History) (ord : Ordered G) (log : List LogEntry) (args : AppendEntriesArgs)
    (f : Follows G log) (made : Follows G (G args.term)) (p : Placed G args)
    (has : Has log args.prev_log_index args.prev_log_term) where
  end : ℕ
  end = end_of args

  l : List LogEntry
  l = take (end_of args) (G args.term)

  log' : List LogEntry
  log' = append_loop (args.prev_log_index + 1) args.entries log

  size : length l ≡ end_of args
  unfolding l
  size = omega (arith, length-take (end_of args) (G args.term), p.inside)

  merged : Merged log l log'
  unfolding l log'
  merged =
      let quoted : Follows G l = Follows-prefix G (G args.term) (end_of args) made in
      let matching = Follows-Matching G log l f quoted in
      let prev : Has l args.prev_log_index args.prev_log_term =
        Has-prefix (G args.term) (end_of args) args.prev_log_index args.prev_log_term (omega arith)
          p.prev in
      rw add-one (
        merge log l args.entries (suc args.prev_log_index) matching (omega (arith, size))
          (matching.agree args.prev_log_index args.prev_log_term has prev) p.rest)

  -- The follower has the whole of the request.
  pub accept-Has :
      (n a : ℕ)
      → n < end_of args
      → Has (G args.term) n a
      → Has (append_loop (args.prev_log_index + 1) args.entries log) n a
  unfolding l log' Merged
  accept-Has n a lt h = elim merged [
    | inl (same, whole) ↦ rw same (
        Has-take l log (length l) n a (take-all (length l) l (omega arith) ∙ sym whole)
          (omega (arith, size)) (Has-prefix (G args.term) (end_of args) n a lt h))
    | inr same ↦ rw same (Has-prefix (G args.term) (end_of args) n a lt h)
  ]

  -- A follower that has the whole of the request keeps its log.
  pub accept-same :
      take (end_of args) log ≡ take (end_of args) (G args.term)
      → append_loop (args.prev_log_index + 1) args.entries log ≡ log
  unfolding l
  accept-same same =
      append_loop-Holds (args.prev_log_index + 1) args.entries log
        (Holds-take log l args.entries (args.prev_log_index + 1) (rw add-one p.rest) (rw size same))

  pub accept-more :
      (n : ℕ)
      → end_of args ≤ n
      → Has log n args.term
      → append_loop (args.prev_log_index + 1) args.entries log ≡ log
  accept-more n le h = accept-same (
      take-shorten log (G args.term) (end_of args) (suc n) (omega arith)
        (Follows-take G log n args.term f h))

  -- After the request, the log begins as its term's.
  pub accept-take :
      take (end_of args) (append_loop (args.prev_log_index + 1) args.entries log)
      ≡ take (end_of args) (G args.term)
  unfolding l log' Merged
  accept-take = elim merged [
    | inl (same, whole) ↦ ap (take (end_of args)) same ∙ rw size at whole
    | inr same ↦
        ap (take (end_of args)) same
        ∙ take-take_le (G args.term) (end_of args) (end_of args) (omega arith)
  ]

  -- An older entry that the follower had is there still, or the leader of the request was without it.
  pub accept-older :
      (n t : ℕ)
      → t < args.term
      → Has log n t
      → Has (append_loop (args.prev_log_index + 1) args.entries log) n t
        ⊎ Lost G t n (args.term + 1)
  unfolding l log' Merged
  accept-older n t lt h = elim merged [
    | inl (same, whole) ↦ inl (rw same h)
    | inr same ↦ elim (Bool-cases (has_term (G args.term) n t)) [
      | inl yes' ↦ elim (dec_lt n (end_of args)) [
        | yes before ↦ inl (accept-Has n t before yes')
        | no behind ↦ absurd (
            omega
              (arith, ord.mono args.term (end_of args - 1) n args.term t (omega arith) p.last yes'))
      ]
      | inr no' ↦ inr (record {
        w = args.term;
        after = lt;
        before = omega arith;
        begun = omega (arith, p.inside);
        lacks = no';
      })
    ]
  ]

  -- An entry is one that the log had, or one of the request's term's log.
  pub accept-from :
      (n a : ℕ)
      → Has (append_loop (args.prev_log_index + 1) args.entries log) n a
      → Has log n a ⊎ Has (G args.term) n a
  unfolding l log' Merged
  accept-from n a h = elim merged [
    | inl (same, _) ↦ inl (subst (λ x. Has x n a) same h)
    | inr same ↦
        let h' : Has l n a = subst (λ x. Has x n a) same h in
        inr (
          Has-take l (G args.term) (end_of args) n a
            (take-take_le (G args.term) (end_of args) (end_of args) (omega arith))
            (omega (arith, lt-of_has_term l n a h', size)) h')
  ]

  pub accept-full : 0 < length (append_loop (args.prev_log_index + 1) args.entries log)
  unfolding l log' Merged
  accept-full = elim merged [
    | inl (same, _) ↦
        omega (arith, ap length same, lt-of_has_term log args.prev_log_index args.prev_log_term has)
    | inr same ↦ omega (arith, ap length same, size)
  ]
