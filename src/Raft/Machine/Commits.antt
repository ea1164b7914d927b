-- ===== src/Raft/Machine/Commits.antt =====
-- A leader gets a follower's answer.
use dssd.Prelude.{
  ℕ, suc, ◌+◌, ◌≤◌, ◌<◌, ◌≡◌, sym, ap, subst, ◌⊎◌, inl, inr, String, true, some, List, length, take,
  Dict, lookup, insert, lookup-insert, str_eq, str_eq→eq, Bool-cases, arith,
}
use dssd.Raft.State.{Raft, is_leader, last_index}
use dssd.Raft.Append.{AppendEntriesArgs, AppendEntriesReply}
use dssd.Raft.Replicate.{advance_commit_index, acknowledge, back_up, on_append_reply}
use dssd.Raft.Node.Terms.{Later}
use dssd.Raft.Group.Effects.{Calm, Still}
use dssd.Raft.Group.History.{History}
use dssd.Raft.Machine.Kept.{Acks}
use dssd.Raft.Machine.Accept.{end_of}
use dssd.Raft.Machine.Fine.{Matched, Fine, Fine-Still}
use dssd.Raft.Machine.Counts.{advance_loop-commits, Committable-Chosen}

back_up-Still : (peer : String) (r r' : Raft) → back_up peer r ≡ some r' → Still r r'
unfolding back_up
back_up-Still peer r r' h = ground arith

-- The reply changes nothing that is committed or known, or it is the acknowledgement of a request
-- of the leader's own term.
on_append_reply-Still :
    (now : ℕ) (peer : String) (args : AppendEntriesArgs) (reply : AppendEntriesReply) (r r' : Raft)
    → on_append_reply now peer args (some reply) r ≡ some r'
    → Still r r'
      ⊎ ((is_leader r.role ≡ true)
          × (r.current_term ≡ args.term)
          × (reply.success ≡ true)
          × (acknowledge peer (args.prev_log_index + length args.entries) r ≡ some r'))
unfolding on_append_reply
on_append_reply-Still now peer args reply r r' h = ground (arith, back_up-Still peer r r')

inserted :
    (peer p : String) (v k : ℕ) (d : Dict ℕ)
    → lookup p (insert peer v d) ≡ some k
    → ((peer ≡ p) × (k ≡ v)) ⊎ (lookup p d ≡ some k)
inserted peer p v k d at = elim (Bool-cases (str_eq peer p)) [
  | inl hit ↦ inl (str_eq→eq peer p hit, ground (arith, hit, at, lookup-insert peer p v d))
  | inr miss ↦ inr (ground (arith, miss, at, lookup-insert peer p v d))
]

module _ (members : List String) (G : History) (B : Acks) (r : Raft)
    (leads : is_leader r.role ≡ true) (whole : r.log ≡ G r.current_term)
    (own : B r.cfg.id r.current_term ≡ length (G r.current_term)) (peer : String) (matched : ℕ)
    (backed : matched < B peer r.current_term) (f : Fine members G B r) where
  told : Raft
  told = record r {
    match_index = insert peer matched r.match_index;
    next_index = insert peer (matched + 1) r.next_index;
  }

  told-Matched : Matched B told
  unfolding told
  told-Matched l p k at = elim (inserted peer p matched k r.match_index at) [
    | inl (same, new) ↦ inr (omega (arith, backed, new, ap (λ x. B x r.current_term) same))
    | inr old ↦ f.matched l p k old
  ]

  told-Fine : Fine members G B told
  unfolding told
  told-Fine = record { safe = f.safe; matched = told-Matched; group = f.group }

  pub acknowledge-Fine : (r' : Raft) → acknowledge peer matched r ≡ some r' → Fine members G B r'
  unfolding told acknowledge advance_commit_index
  acknowledge-Fine r' h = elim (advance_loop-commits told r' (last_index r) h) [
    | inl same ↦ subst (Fine members G B) (sym same) told-Fine
    | inr (k, same, c) ↦ subst (Fine members G B) (sym same) (record {
      safe = record {
        t = r.current_term;
        n = suc k;
        chosen = Committable-Chosen members G B told leads whole own told-Matched f.group k c;
        old = omega arith;
        reach = omega arith;
        same = ap (take (suc (suc k))) whole;
      };
      matched = told-Matched;
      group = f.group;
    })
  ]

-- After an answer, for a leader that has its term's log and a follower that has acknowledged what
-- it says.
pub on_append_reply-Fine :
    (members : List String) (G : History) (B : Acks) (now : ℕ) (peer : String)
    (args : AppendEntriesArgs) (reply : AppendEntriesReply) (r r' : Raft)
    → on_append_reply now peer args (some reply) r ≡ some r'
    → Later r r'
    → Calm r r'
    → (is_leader r.role ≡ true
        → (r.log ≡ G r.current_term) × (B r.cfg.id r.current_term ≡ length (G r.current_term)))
    → (reply.success ≡ true → end_of args ≤ B peer args.term)
    → Fine members G B r
    → Fine members G B r'
on_append_reply-Fine members G B now peer args reply r r' h later calm leads replied f =
    elim (on_append_reply-Still now peer args reply r r' h) [
      | inl still ↦ Fine-Still members G B r r' later calm still f
      | inr (led, same, ok, ack) ↦
          let (whole, own) = leads led in
          acknowledge-Fine members G B r led whole own peer
            (args.prev_log_index + length args.entries)
            (omega (arith, replied ok, ap (B peer) same)) f r' ack
    ]
