-- ===== src/Raft/CatchUp/Finish.antt =====
-- raft.py: `next_index` goes down by one with every refusal, so a leader finds the place where a
-- peer's log leaves its own.
use dssd.Prelude.{
  ℕ, zero, suc, ◌+◌, ◌-◌, ◌≤◌, ◌<◌, ◌≡◌, refl, ap, sym, subst, ◌∙◌, inl, inr, String, true, false,
  some, length, length-drop, lookup, insert, lookup-insert, Bool-cases, get_elem?, get_elem?-of_lt,
  eq_refl, some_inj, arith,
}
use dssd.Raft.State.{Raft, LogEntry}
use dssd.Raft.Vote.{observe_term}
use dssd.Raft.Log.{has_term}
use dssd.Raft.Append.{follow, handle_append_entries}
use dssd.Raft.Append.Branches.{
  handle_append_entries-accept, handle_append_entries-mismatch, follow-frame,
}
use dssd.Raft.Append.Merge.{Merged}
use dssd.Raft.Agreement.{handle_append_entries-Agrees}
use dssd.Raft.Replicate.{append_args, acknowledge, back_up}
use dssd.Raft.Replicate.Leading.{IsLeading, back_up-IsLeading, on_append_reply-IsLeading}
use dssd.Raft.CatchUp.{exchange}
use dssd.Raft.CatchUp.Round.{
  IsPair, CaughtUp, sends, match_index-acknowledge, acknowledge-Advanced, on_append_reply-success,
  on_append_reply-refusal, exchange-request, rounds-suc, rounds-one,
}

last_sent :
    (l : Raft) (n : ℕ) (x : LogEntry)
    → n < length l.log
    → let args = append_args l (suc n) x.term in
      args.prev_log_index + length args.entries ≡ length l.log - 1
unfolding append_args
last_sent l n x inside = omega (arith, length-drop (suc n) l.log)

-- The peer has the entry before the new ones: one round is enough.
accepts :
    (peer : String) (now : ℕ) (l f : Raft) (n : ℕ) (x : LogEntry)
    → IsPair peer l f
    → lookup peer l.next_index ≡ some (suc n)
    → n < length l.log
    → get_elem? l.log n ≡ some x
    → has_term f.log n x.term ≡ true
    → CaughtUp peer now l f 1
unfolding append_args
accepts peer now l f n x v next lt at has =
    let args = append_args l (suc n) x.term in
    let sent = sends peer l n x v.leads next at in
    let same : suc n - 1 ≡ n = omega arith in
    let has' : has_term f.log (suc n - 1) x.term ≡ true = rw same has in
    let (_, agrees) =
      handle_append_entries-Agrees l f peer l.current_term now args sent v.newer v.inside v.matching
        has' in
    let (l', e, _) =
      on_append_reply-IsLeading now peer args (some (record { term = args.term; success = true })) l
        v.member (omega (arith, last_sent l n x lt)) v.tables in
    let handled = handle_append_entries-accept now args f v.newer has' in
    let acked : acknowledge peer (length l.log - 1) l ≡ some l' =
      sym (ap (λ m. acknowledge peer m l) (last_sent l n x lt))
      ∙ sym (on_append_reply-success now peer args l v.leads refl)
      ∙ e in
    record {
      leader = l';
      follower = (handle_append_entries now args f).0;
      runs =
          rounds-one now peer _ _
            (exchange-request peer now l f l' _ args _ sent (rw handled refl) e);
      agrees = agrees;
      matched = match_index-acknowledge peer _ l l' acked;
      next = insert peer (length l.log - 1 + 1) l.next_index;
      advanced = acknowledge-Advanced peer (length l.log - 1) l l' v.tables acked;
    }

-- The leader, one place further back.
abbrev backed_up : (peer : String) (n : ℕ) → Raft → Raft
backed_up peer n l = record l { next_index = insert peer n l.next_index }

backs_up :
    (peer : String) (n : ℕ) (l : Raft)
    → lookup peer l.next_index ≡ some (suc (suc n))
    → back_up peer l ≡ some (backed_up peer (suc n) l)
unfolding back_up
backs_up peer n l next = ground (arith, next)

-- The peer that has refused.
abbrev refuser : (now n : ℕ) → LogEntry → (l f : Raft) → Raft
refuser now n x l f = follow now (append_args l (suc n) x.term) (observe_term now l.current_term f)

-- The peer lacks the entry before the new ones: the next round tries one place further back.
refuses :
    (peer : String) (now : ℕ) (l f : Raft) (n : ℕ) (x : LogEntry)
    → IsPair peer l f
    → lookup peer l.next_index ≡ some (suc (suc n))
    → get_elem? l.log (suc n) ≡ some x
    → has_term f.log (suc n) x.term ≡ false
    → exchange now peer (l, f) ≡ some (backed_up peer (suc n) l, refuser now (suc n) x l f)
unfolding append_args
refuses peer now l f n x v next at lacks =
    let args = append_args l (suc (suc n)) x.term in
    let same : suc (suc n) - 1 ≡ suc n = omega arith in
    let lacks' : has_term f.log (suc (suc n) - 1) x.term ≡ false = rw same lacks in
    exchange-request peer now l f _ _ args _ (sends peer l (suc n) x v.leads next at)
      (handle_append_entries-mismatch now args f v.newer lacks')
      (on_append_reply-refusal now peer args l v.leads refl ∙ backs_up peer n l next)

refuser-frame :
    (now n : ℕ) (x : LogEntry) (l f : Raft)
    → f.current_term ≤ l.current_term
    → let g = refuser now n x l f in
      (g.log ≡ f.log) × (g.commit_index ≡ f.commit_index) × (g.current_term ≡ l.current_term)
unfolding append_args
refuser-frame now n x l f newer =
    let g = follow-frame now (append_args l (suc n) x.term) f newer in (g.0, g.1, g.2)

refuses-IsPair :
    (peer : String) (now : ℕ) (l f : Raft) (n : ℕ) (x : LogEntry)
    → lookup peer l.next_index ≡ some (suc (suc n))
    → IsPair peer l f
    → IsPair peer (backed_up peer (suc n) l) (refuser now (suc n) x l f)
refuses-IsPair peer now l f n x next v =
    let frame = refuser-frame now (suc n) x l f v.newer in
    let (l', e, tables) = back_up-IsLeading peer l v.member v.tables in
    record {
      leads = v.leads;
      tables = subst IsLeading (some_inj (sym e ∙ backs_up peer n l next)) tables;
      member = v.member;
      inside = v.inside;
      first = v.first;
      first_peer = rw frame.0 v.first_peer;
      newer = omega (arith, frame.2);
      matching = rw frame.0 v.matching;
    }

refuses-CaughtUp :
    (peer : String) (now : ℕ) (l f : Raft) (n k : ℕ) (x : LogEntry)
    → exchange now peer (l, f) ≡ some (backed_up peer (suc n) l, refuser now (suc n) x l f)
    → IsPair peer l f
    → CaughtUp peer now (backed_up peer (suc n) l) (refuser now (suc n) x l f) k
    → CaughtUp peer now l f (suc k)
unfolding append_args
refuses-CaughtUp peer now l f n k x step v c =
    let frame = refuser-frame now (suc n) x l f v.newer in
    record {
      leader = c.leader;
      follower = c.follower;
      runs = rounds-suc k now peer _ _ step ∙ c.runs;
      agrees = record {
        log = subst (λ log. Merged log l.log c.follower.log) frame.0 c.agrees.log;
        commit = omega (arith, c.agrees.commit, frame.1);
        term = c.agrees.term;
        hint = c.agrees.hint;
        role = c.agrees.role;
      };
      matched = c.matched;
      next = c.next;
      advanced = c.advanced;
    }

first_term :
    (l f : Raft) (x : LogEntry)
    → get_elem? l.log 0 ≡ some x
    → has_term l.log 0 0 ≡ true
    → has_term f.log 0 0 ≡ true
    → has_term f.log 0 x.term ≡ true
unfolding has_term
first_term l f x at first first_peer = ground arith

walk :
    (peer : String) (now : ℕ) (l f : Raft) (n : ℕ)
    → IsPair peer l f
    → lookup peer l.next_index ≡ some (suc n)
    → n < length l.log
    → (k : ℕ) × (k ≤ suc n) × CaughtUp peer now l f k
walk peer now l f zero v next lt =
    let (x, at) = get_elem?-of_lt l.log 0 lt in
    (
      1,
      omega arith,
      accepts peer now l f 0 x v next lt at (first_term l f x at v.first v.first_peer),
    )
walk peer now l f (suc n) v next lt =
    let (x, at) = get_elem?-of_lt l.log (suc n) lt in
    elim (Bool-cases (has_term f.log (suc n) x.term)) [
      | inl has ↦ (1, omega arith, accepts peer now l f (suc n) x v next lt at has)
      | inr lacks ↦
          let (k, few, c) =
            walk peer now (backed_up peer (suc n) l) (refuser now (suc n) x l f) n
              (refuses-IsPair peer now l f n x next v) (rw (lookup-insert, eq_refl) refl)
              (omega arith) in
          (
            suc k,
            omega arith,
            refuses-CaughtUp peer now l f n k x (refuses peer now l f n x v next at lacks) v c,
          )
    ]

-- Let a leader's tables give every peer a place of its log and its commit index lie inside the
-- log, let a peer know of no newer term, and let both logs begin with the sentinel and match. If
-- requests and replies get through, no round fails, and after at most as many rounds as the
-- leader's next index for the peer says, the match index for the peer is the leader's last index,
-- the leader has committed the newest entry that this allows, the peer's log is the leader's or
-- already begins with it, its commit index is the larger of the two, and it follows this leader
-- in its term.
pub rounds-CaughtUp :
    (peer : String) (now : ℕ) (l f : Raft)
    → IsPair peer l f
    → (n : ℕ) × (lookup peer l.next_index ≡ some n) × ((k : ℕ) × (k ≤ n) × CaughtUp peer now l f k)
rounds-CaughtUp peer now l f v =
    let (n, next, lt) = v.tables.next peer v.member in (suc n, next, walk peer now l f n v next lt)
