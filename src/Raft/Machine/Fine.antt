-- ===== src/Raft/Machine/Fine.antt =====
-- What a member counts as committed, and what it knows of its peers.
use mathlib.Core.List.{Permᴰ}
use dssd.Prelude.{
  ℕ, suc, ◌≤◌, ◌<◌, ◌≡◌, refl, sym, ap, ◌∙◌, ◌⊎◌, inl, inr, String, true, some, List, [], ◌∷◌, ◌++◌,
  length, length-take, take, take-append, lookup, arith,
}
use dssd.Raft.State.{Raft, LogEntry, is_leader}
use dssd.Raft.Log.{lt-of_has_term}
use dssd.Raft.Append.{AppendEntriesArgs}
use dssd.Raft.Node.Terms.{Later}
use dssd.Raft.Group.Effects.{Calm, Still}
use dssd.Raft.Group.History.{History}
use dssd.Raft.Group.Lead.{Makes}
use dssd.Raft.Machine.Kept.{Acks}
use dssd.Raft.Machine.Complete.{SafeAt, Chosen-grow}
use dssd.Raft.Machine.Accept.{end_of}
use dssd.Raft.Machine.Sound.{Moved}

-- A leader's match index of a peer: at most what the peer has acknowledged.
abbrev pub Matched : Acks → Raft → Type 0
Matched B r =
    is_leader r.role ≡ true
    → (p : String) (k : ℕ) → lookup p r.match_index ≡ some k
    → (k ≡ 0) ⊎ (k < B p r.current_term)

pub record Fine (members : List String) (G : History) (B : Acks) (r : Raft) : Type 0 where
  pub safe : SafeAt members G B r.current_term r.commit_index r.log
  pub matched : Matched B r
  pub group : Permᴰ (r.cfg.id ∷ r.cfg.peers) members

-- What a request says is committed lies inside what it sends.
pub record Carries (members : List String) (G : History) (B : Acks) (args : AppendEntriesArgs)
    : Type 0 where
  pub safe : SafeAt members G B args.term args.leader_commit (G args.term)
  pub within : args.leader_commit < end_of args

-- No more is committed than the log has.
pub SafeAt-inside :
    (members : List String) (G : History) (B : Acks) (top c : ℕ) (log : List LogEntry)
    → SafeAt members G B top c log
    → c < length log
SafeAt-inside members G B top c log a = omega (
  arith,
  ap length a.same,
  length-take (suc c) log,
  length-take (suc c) (G a.t),
  lt-of_has_term (G a.t) a.n a.t a.chosen.has,
  a.reach,
)

-- A log with the same beginning, in a later term.
pub SafeAt-relog :
    (members : List String) (G : History) (B : Acks) (top top' c : ℕ) (log log' : List LogEntry)
    → top ≤ top'
    → take (suc c) log' ≡ take (suc c) log
    → SafeAt members G B top c log
    → SafeAt members G B top' c log'
SafeAt-relog members G B top top' c log log' le same a = record {
  t = a.t;
  n = a.n;
  chosen = a.chosen;
  old = omega (arith, a.old);
  reach = a.reach;
  same = same ∙ a.same;
}

pub SafeAt-move :
    (members : List String) (G G' : History) (B B' : Acks) (top c : ℕ) (log : List LogEntry)
    → Moved G B G' B'
    → SafeAt members G B top c log
    → SafeAt members G' B' top c log
SafeAt-move members G G' B B' top c log moved a =
    let (xs, grown) = moved.grows.more a.t in
    record {
      t = a.t;
      n = a.n;
      chosen = Chosen-grow members G G' B B' a.t a.n moved.growth moved.more a.chosen;
      old = a.old;
      reach = a.reach;
      same =
          a.same
          ∙ sym (
              ap (take (suc c)) grown
              ∙ take-append (G a.t) xs (suc c)
                  (omega (arith, a.reach, lt-of_has_term (G a.t) a.n a.t a.chosen.has)));
    }

pub Fine-move :
    (members : List String) (G G' : History) (B B' : Acks) (r : Raft)
    → Moved G B G' B'
    → Fine members G B r
    → Fine members G' B' r
Fine-move members G G' B B' r moved f = record {
  safe = SafeAt-move members G G' B B' r.current_term r.commit_index r.log moved f.safe;
  matched = λ l p k at. elim (f.matched l p k at) [
    | inl none_yet ↦ inl none_yet
    | inr lt ↦ inr (omega (arith, lt, moved.more p r.current_term))
  ];
  group = f.group;
}

pub Carries-move :
    (members : List String) (G G' : History) (B B' : Acks) (args : AppendEntriesArgs)
    → Moved G B G' B'
    → Carries members G B args
    → Carries members G' B' args
Carries-move members G G' B B' args moved c =
    let (xs, grown) = moved.grows.more args.term in
    record {
      safe =
          SafeAt-relog members G' B' args.term args.term args.leader_commit (G args.term)
            (G' args.term) (omega arith)
            (ap (take (suc args.leader_commit)) grown
              ∙ take-append (G args.term) xs (suc args.leader_commit)
                  (SafeAt-inside members G B args.term args.leader_commit (G args.term) c.safe))
            (SafeAt-move members G G' B B' args.term args.leader_commit (G args.term) moved c.safe);
      within = c.within;
    }

pub Fine-Still :
    (members : List String) (G : History) (B : Acks) (r r' : Raft)
    → Later r r'
    → Calm r r'
    → Still r r'
    → Fine members G B r
    → Fine members G B r'
Fine-Still members G B r r' later calm still f = record {
  safe =
      rw (still.commit, calm.log)
        (SafeAt-relog members G B r.current_term r'.current_term r.commit_index r.log r.log
          later.term refl f.safe);
  matched = λ l p k at.
      let (led, same) = calm.leads l in
      rw same (f.matched led p k (ap (lookup p) (sym (still.matched l)) ∙ at));
  group = rw later.cfg f.group;
}

pub Fine-make :
    (members : List String) (G : History) (B : Acks) (r r' : Raft) (e : LogEntry)
    → Later r r'
    → Makes r r' e
    → r'.commit_index ≡ r.commit_index
    → Matched B r'
    → Fine members G B r
    → Fine members G B r'
Fine-make members G B r r' e later makes commit matched f = record {
  safe =
      rw (commit, makes.log)
        (SafeAt-relog members G B r.current_term r'.current_term r.commit_index r.log
          (r.log ++ e ∷ []) later.term
          (take-append r.log (e ∷ []) (suc r.commit_index)
            (SafeAt-inside members G B r.current_term r.commit_index r.log f.safe))
          f.safe);
  matched = matched;
  group = rw later.cfg f.group;
}
