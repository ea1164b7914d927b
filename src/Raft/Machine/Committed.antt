-- ===== src/Raft/Machine/Committed.antt =====
-- What the members of the machine count as committed, along its steps.
use mathlib.Core.List.{Memᴰ}
use mathlib.Core.List.Memᴰ
use dssd.Prelude.{
  ℕ, ◌≡◌, refl, sym, ap, subst, ◌∙◌, inl, inr, String, true, some, List, [], ◌∷◌, length, contains,
  Bool-cases, arith,
}
use dssd.Raft.State.{Raft, is_leader, propose}
use dssd.Raft.Vote.{RequestVoteReply}
use dssd.Raft.Append.{AppendEntriesArgs, handle_append_entries}
use dssd.Raft.Replicate.{request, replicate_to, on_append_reply}
use dssd.Raft.Replicate.Request.{Sent, replicate_to-Sent}
use dssd.Raft.Node
use dssd.Raft.Node.Terms.{
  Step-Later, propose-Later, handle_request_vote-Later, handle_append_entries-Later, ask-Later,
}
use dssd.Raft.Cluster.{System, put, stand, answer, hear}
use dssd.Raft.Cluster.Stand.{start_election-lem}
use dssd.Raft.Cluster.Invariant.{put-cases}
use dssd.Raft.Group.{receive}
use dssd.Raft.Group.Effects.{
  Calm-refl, made, propose-leader, propose-other, ask-cases, handle_request_vote-Calm,
  start_election-Calm, handle_append_entries-cases, on_append_reply-Calm,
}
use dssd.Raft.Group.History.{History}
use dssd.Raft.Machine.{
  Machine, Answer, MachineStep, alone, proposes, stands, answers, counts, sends, receives, gets,
  MachineReach, starts, runs,
}
use dssd.Raft.Machine.Kept.{Acks}
use dssd.Raft.Machine.Complete.{SafeAt}
use dssd.Raft.Machine.Sound.{Sound, Moved}
use dssd.Raft.Machine.Answers.{MachineStep-Sound}
use dssd.Raft.Machine.Steps.{Sent-end, Alone-Later, Alone-Calm}
use dssd.Raft.Machine.Fine.{
  Fine, Carries, Fine-move, Carries-move, Fine-Still, Fine-make, SafeAt-inside,
}
use dssd.Raft.Machine.Still.{
  Alone-Still, start_election-Still, handle_request_vote-Still, handle_append_entries-Still,
  propose-Still,
}
use dssd.Raft.Machine.Commits.{on_append_reply-Fine}
use dssd.Raft.Machine.Takes.{accept-Fine}

pub record Commits (members : List String) (s : System) (sent : List AppendEntriesArgs)
    (G : History) (B : Acks) : Type 0 where
  pub fine : (i : String) → contains members i ≡ true → Fine members G B (s.node i)
  pub carries : (args : AppendEntriesArgs) → Memᴰ args sent → Carries members G B args

-- The whole invariant of a machine.
abbrev pub HasCommits : List String → Machine → Type 0
HasCommits members m =
    (G : History) × (B : Acks) × Sound members m G B × Commits members m.sys m.sent G B

module _ {members : List String} (m : Machine) (G G' : History) (B B' : Acks)
    (moved : Moved G B G' B') (v : Sound members m G B) (c : Commits members m.sys m.sent G B) where
  -- One member has changed.
  change-Commits :
      (i : String) (r' : Raft) (s' : System)
      → contains members i ≡ true
      → ((j : String) → s'.node j ≡ put m.sys.node i r' j)
      → Fine members G B r'
      → Commits members s' m.sent G' B'
  change-Commits i r' s' mem node f = record {
    fine = λ j mem_j. Fine-move members G G' B B' (s'.node j) moved (
        subst (Fine members G B) (sym (node j))
          (put-cases (Fine members G B) m.sys.node i j r' (λ _. f) (c.fine j mem_j)));
    carries = λ args h. Carries-move members G G' B B' args moved (c.carries args h);
  }

  propose-Fine :
      (i : String) (command : List ℕ)
      → contains members i ≡ true
      → Fine members G B (propose (m.sys.node i) command).0
  propose-Fine i command mem = elim (Bool-cases (is_leader (m.sys.node i).role)) [
    | inr other ↦
        Fine-Still members G B (m.sys.node i) (propose (m.sys.node i) command).0
          (propose-Later (m.sys.node i) command)
          (rw (propose-other (m.sys.node i) command other) (Calm-refl (m.sys.node i)))
          (propose-Still (m.sys.node i) command) (c.fine i mem)
    | inl leads ↦
        Fine-make members G B (m.sys.node i) (propose (m.sys.node i) command).0
          (made (m.sys.node i) command) (propose-Later (m.sys.node i) command)
          (rw (propose-leader (m.sys.node i) command leads)
            (record { log = refl; of_term = refl; term = refl; leads = leads }))
          (propose-Still (m.sys.node i) command).commit
          (rw (propose-leader (m.sys.node i) command leads) (c.fine i mem).matched) (c.fine i mem)
  ]

  hear-Commits :
      (i : String) (t : ℕ) (p : String) (now : ℕ) (reply : RequestVoteReply)
      → contains members i ≡ true
      → Commits members (hear i t p now reply m.sys) m.sent G' B'
  unfolding hear
  hear-Commits i t p now reply mem =
      elim (ask-cases now reply (m.sys.node i) (record { term = t; votes = m.sys.votes i t })) [
        | inl (calm, still) ↦
            change-Commits i _ _ mem (λ j. refl)
              (Fine-Still members G B (m.sys.node i) _ (ask-Later now (some reply) (m.sys.node i) _)
                calm still (c.fine i mem))
        | inr (becomes, _, _) ↦
            change-Commits i _ _ mem (λ j. refl)
              (Fine-make members G B (m.sys.node i) _ (made (m.sys.node i) [])
                (ask-Later now (some reply) (m.sys.node i) _)
                (record {
                  log = becomes.log;
                  of_term = refl;
                  term = becomes.term;
                  leads = becomes.leads;
                })
                becomes.commit (λ _ q k at. inl (becomes.none_known q k at)) (c.fine i mem))
      ]

  -- A leader sends nothing as committed that is not.
  send-Carries :
      (i peer : String) (term : ℕ) (args : AppendEntriesArgs)
      → contains members i ≡ true
      → replicate_to peer term (m.sys.node i) ≡ request args
      → Carries members G B args
  send-Carries i peer term args mem sent = record {
    safe =
        subst (λ l. SafeAt members G B args.term args.leader_commit l) whole
          (rw (s.term, s.commit) safe);
    within = omega (
      arith,
      s.commit,
      Sent-end (m.sys.node i) args s,
      SafeAt-inside members G B (m.sys.node i).current_term (m.sys.node i).commit_index
          (m.sys.node i).log safe,
    );
  }
    where
      s : Sent (m.sys.node i) args
      s = replicate_to-Sent peer term (m.sys.node i) args sent

      whole : (m.sys.node i).log ≡ G args.term
      whole = v.logged.lead i mem s.leads ∙ ap G (sym s.term)

      safe :
          SafeAt members G B
            (m.sys.node i).current_term
            (m.sys.node i).commit_index
            (m.sys.node i).log
      safe = (c.fine i mem).safe

  send-Commits :
      (args : AppendEntriesArgs)
      → Carries members G B args
      → Commits members m.sys (args ∷ m.sent) G' B'
  send-Commits args new = record {
    fine = λ i mem. Fine-move members G G' B B' (m.sys.node i) moved (c.fine i mem);
    carries = λ a h. Carries-move members G G' B B' a moved (elim (Memᴰ.cases_cons h) [
      | inl same ↦ subst (Carries members G B) (sym same) new
      | inr before ↦ c.carries a before
    ]);
  }

  receive-Fine :
      (j : String) (now : ℕ) (args : AppendEntriesArgs)
      → contains members j ≡ true
      → Memᴰ args m.sent
      → Fine members G B (handle_append_entries now args (m.sys.node j)).0
  receive-Fine j now args mem sent = elim (handle_append_entries-cases now args (m.sys.node j)) [
    | inl (calm, failed) ↦
        Fine-Still members G B (m.sys.node j) (handle_append_entries now args (m.sys.node j)).0
          (handle_append_entries-Later now args (m.sys.node j)) calm
          (handle_append_entries-Still now args (m.sys.node j) failed) (c.fine j mem)
    | inr a ↦
        accept-Fine G B v.keeps v.ord v.logged.made (m.sys.node j)
          (handle_append_entries now args (m.sys.node j)).0 args (v.logged.follow j mem)
          (v.placed args sent) a (handle_append_entries-Later now args (m.sys.node j))
          (c.carries args sent) (c.fine j mem)
  ]

  get-Fine :
      (i : String) (now : ℕ) (a : Answer) (r' : Raft)
      → contains members i ≡ true
      → Memᴰ a m.replies
      → on_append_reply now a.from a.args (some a.reply) (m.sys.node i) ≡ some r'
      → Fine members G B r'
  get-Fine i now a r' mem got h =
      on_append_reply-Fine members G B now a.from a.args a.reply (m.sys.node i) r' h
        (Step-Later (Node.hears now a.from a.args (some a.reply) h))
        (on_append_reply-Calm now a.from a.args (some a.reply) (m.sys.node i) r' h)
        (λ l. (
          v.logged.lead i mem l,
          subst (λ x. B x (m.sys.node i).current_term ≡ length (G (m.sys.node i).current_term))
              (sym (v.inv.member i mem).id) (v.leads i mem l),
        ))
        (v.replied a got) (c.fine i mem)

  pub step-Commits : {k : Machine} → MachineStep members m k → Commits members k.sys k.sent G' B'
  unfolding stand answer receive
  step-Commits (alone i {r'} mem step) =
      change-Commits i r' _ mem (λ j. refl)
        (Fine-Still members G B (m.sys.node i) r' (Alone-Later (m.sys.node i) r' step)
          (Alone-Calm (m.sys.node i) r' step) (Alone-Still (m.sys.node i) r' step) (c.fine i mem))
  step-Commits (proposes i command mem) =
      change-Commits i _ _ mem (λ j. refl) (propose-Fine i command mem)
  step-Commits (stands i now timeout mem) =
      change-Commits i _ _ mem (λ j. refl)
        (Fine-Still members G B (m.sys.node i) _ (start_election-lem now timeout (m.sys.node i)).0
          (start_election-Calm now timeout (m.sys.node i))
          (start_election-Still now timeout (m.sys.node i)) (c.fine i mem))
  step-Commits (answers w now args mem named asked) =
      change-Commits w _ _ mem (λ j. refl)
        (Fine-Still members G B (m.sys.node w) _ (handle_request_vote-Later now args (m.sys.node w))
          (handle_request_vote-Calm now args (m.sys.node w))
          (handle_request_vote-Still now args (m.sys.node w)) (c.fine w mem))
  step-Commits (counts i t p now reply mem peer first granted) = hear-Commits i t p now reply mem
  step-Commits (sends i peer term args mem sent) =
      send-Commits args (send-Carries i peer term args mem sent)
  step-Commits (receives j now args mem sent) =
      change-Commits j _ _ mem (λ x. refl) (receive-Fine j now args mem sent)
  step-Commits (gets i now a {r'} mem peer got h) =
      change-Commits i r' _ mem (λ j. refl) (get-Fine i now a r' mem got h)

pub MachineReach-Commits :
    {members : List String} {m k : Machine}
    → MachineReach members m k
    → HasCommits members m
    → HasCommits members k
MachineReach-Commits starts v = v
MachineReach-Commits (runs {k = k} run step) start =
    let (G, B, v, c) = MachineReach-Commits run start in
    let (G', B', moved, v') = MachineStep-Sound step v in
    (G', B', v', step-Commits k G G' B B' moved v c step)
