-- ===== src/Raft/Machine/Safety.antt =====
-- State machine safety: what members count as committed is the same.
use dssd.Prelude.{
  ℕ, suc, ◌≤◌, ◌<◌, ◌≡◌, sym, ◌∙◌, ap, String, true, List, length, take, contains, arith,
}
use dssd.Raft.State.{Config, is_leader}
use dssd.Raft.Cluster.Safety.{IsConfigured}
use dssd.Raft.Machine.{Machine, MachineReach, new_machine}
use dssd.Raft.Machine.Order.{take-shorten}
use dssd.Raft.Machine.Complete.{SafeAt-agree, Chosen-prefix}
use dssd.Raft.Machine.Fine.{SafeAt-inside}
use dssd.Raft.Machine.Committed.{HasCommits, MachineReach-Commits}
use dssd.Raft.Machine.Start.{IsGroup, HasCommits-new_machine}

module _ (members : List String) (configs : String → Config) (timeouts : String → ℕ) (m : Machine)
    (config : IsConfigured members configs) (group : IsGroup members configs)
    (run : MachineReach members (new_machine configs timeouts) m) where
  reached : HasCommits members m
  reached = MachineReach-Commits run (HasCommits-new_machine members configs timeouts config group)

  -- State machine safety. In a group whose members have nonempty names and whose peers are all
  -- the others, each once, where every vote request, vote, AppendEntries request and answer that
  -- is taken has been sent, lost, late, reordered or repeated, after any sequence of elections,
  -- proposals, restarts and other steps, the logs of two members hold the same entries up to any
  -- place that both count as committed.
  pub committed_agree :
      (i j : String)
      → contains members i ≡ true
      → contains members j ≡ true
      → (k : ℕ) → k ≤ (m.sys.node i).commit_index
      → k ≤ (m.sys.node j).commit_index
      → take (suc k) (m.sys.node i).log ≡ take (suc k) (m.sys.node j).log
  committed_agree i j mi mj k le le' =
      let (G, B, v, c) = reached in
      SafeAt-agree v.keeps v.logged.made (m.sys.node i).current_term (m.sys.node j).current_term
        (m.sys.node i).commit_index (m.sys.node j).commit_index (m.sys.node i).log
        (m.sys.node j).log (c.fine i mi).safe (c.fine j mj).safe k le le'

  -- Leader completeness. In a group whose members have nonempty names and whose peers are all the
  -- others, each once, where every vote request, vote, AppendEntries request and answer that is
  -- taken has been sent, lost, late, reordered or repeated, after any sequence of elections,
  -- proposals, restarts and other steps, the log of a leader begins as that of any member whose
  -- term is not after the leader's, up to the place that the member counts as committed; and this
  -- place lies inside both logs.
  pub leader_has_committed :
      (i j : String)
      → contains members i ≡ true
      → contains members j ≡ true
      → is_leader (m.sys.node j).role ≡ true
      → (m.sys.node i).current_term ≤ (m.sys.node j).current_term
      → ((m.sys.node i).commit_index < length (m.sys.node i).log)
        × (take (suc (m.sys.node i).commit_index) (m.sys.node j).log
            ≡ take (suc (m.sys.node i).commit_index) (m.sys.node i).log)
  leader_has_committed i j mi mj leads le =
      let (G, B, v, c) = reached in
      let safe = (c.fine i mi).safe in
      let whole = v.logged.lead j mj leads in
      let term = (m.sys.node j).current_term in
      let commit = (m.sys.node i).commit_index in
      (
        SafeAt-inside members G B (m.sys.node i).current_term commit (m.sys.node i).log safe,
        ap (take (suc commit)) whole
            ∙ take-shorten (G term) (G safe.t) (suc commit) (suc safe.n) (omega (arith, safe.reach))
                (Chosen-prefix v.keeps v.logged.made safe.t safe.n term safe.chosen
                  (omega (arith, safe.old)) (omega (arith, ap length whole, (v.dated j mj).full)))
            ∙ sym safe.same,
      )
