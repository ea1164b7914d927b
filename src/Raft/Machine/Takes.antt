-- ===== src/Raft/Machine/Takes.antt =====
-- A follower that accepts a request: what it counts as committed stays so, and is chosen.
use native.Mathlib.Decide.{dec_lt}
use dssd.Prelude.{
  ℕ, suc, ◌+◌, ◌≤◌, ◌<◌, ◌≡◌, sym, ap, ◌∙◌, inl, inr, String, List, length, take, arith,
}
use dssd.Raft.State.{Raft}
use dssd.Raft.Append.{AppendEntriesArgs, append_loop}
use dssd.Raft.Node.Terms.{Later}
use dssd.Raft.Cluster.{System}
use dssd.Raft.Group.Effects.{Accepts}
use dssd.Raft.Group.History.{History, Follows}
use dssd.Raft.Machine.Order.{Ordered, take-shorten}
use dssd.Raft.Machine.Kept.{Acks, Keeps}
use dssd.Raft.Machine.Complete.{SafeAt, Chosen-prefix}
use dssd.Raft.Machine.Accept.{end_of, Placed, accept-same, accept-take}
use dssd.Raft.Machine.Fine.{Fine, Carries, SafeAt-relog, SafeAt-inside}

module _ {members : List String} {s : System} (G : History) (B : Acks) (k : Keeps members s G B)
    (ord : Ordered G) (made : (u : ℕ) → Follows G (G u)) (r r' : Raft) (args : AppendEntriesArgs)
    (follows : Follows G r.log) (p : Placed G args) (a : Accepts args r r') where
  -- The log after the request, up to a place inside it.
  within : (c : ℕ) → c < end_of args → take (suc c) r'.log ≡ take (suc c) (G args.term)
  within c lt =
      ap (take (suc c)) a.log
      ∙ take-shorten (append_loop (args.prev_log_index + 1) args.entries r.log) (G args.term)
          (suc c) (end_of args) (omega arith)
          (accept-take G ord r.log args follows (made args.term) p a.has)

  -- What the leader counts as committed.
  taken :
      (c : ℕ)
      → c ≤ args.leader_commit
      → Carries members G B args
      → SafeAt members G B r'.current_term c r'.log
  taken c le q = record {
    t = q.safe.t;
    n = q.safe.n;
    chosen = q.safe.chosen;
    old = omega (arith, q.safe.old, a.term);
    reach = omega (arith, q.safe.reach);
    same =
        within c (omega (arith, q.within))
        ∙ take-shorten (G args.term) (G q.safe.t) (suc c) (suc args.leader_commit) (omega arith)
            q.safe.same;
  }

  -- What the follower counted as committed before.
  stays :
      (c : ℕ)
      → SafeAt members G B r.current_term c r.log
      → SafeAt members G B r'.current_term c r'.log
  stays c b = elim (dec_lt c (end_of args)) [
    | yes inside ↦ record {
      t = b.t;
      n = b.n;
      chosen = b.chosen;
      old = omega (arith, b.old, a.term, a.newer);
      reach = b.reach;
      same = within c inside ∙ led;
    }
    | no behind ↦
        SafeAt-relog members G B r.current_term r'.current_term c r.log r'.log
          (omega (arith, a.term, a.newer))
          (ap (take (suc c)) (
            a.log
            ∙ accept-same G ord r.log args follows (made args.term) p a.has (
                take-shorten r.log (G args.term) (end_of args) (suc c) (omega arith)
                  (b.same ∙ sym led))))
          b
  ]
    where
      led : take (suc c) (G args.term) ≡ take (suc c) (G b.t)
      led = take-shorten (G args.term) (G b.t) (suc c) (suc b.n) (omega (arith, b.reach)) (
          Chosen-prefix k made b.t b.n args.term b.chosen (omega (arith, b.old, a.newer))
            (omega (arith, p.inside)))

  -- What was committed lies inside the log still.
  pub accept_inside :
      SafeAt members G B r.current_term r.commit_index r.log → r.commit_index < length r'.log
  accept_inside b =
      SafeAt-inside members G B r'.current_term r.commit_index r'.log (stays r.commit_index b)

  pub accept-Fine : Later r r' → Carries members G B args → Fine members G B r → Fine members G B r'
  accept-Fine later q f = record {
    safe = elim a.commit [
      | inl kept ↦ rw kept (stays r.commit_index f.safe)
      | inr (_, new) ↦ taken r'.commit_index (omega arith) q
    ];
    matched = λ l. ground (arith, l, a.not_leader);
    group = rw later.cfg f.group;
  }
