-- ===== src/Raft/Machine/Replicas.antt =====
-- The state machines get the same entries in the same order.
use native.Mathlib.Decide.{dec_lt}
use dssd.Prelude.{
  ℕ, ◌+◌, ◌-◌, ◌≤◌, ◌≡◌, refl, sym, ap, ◌∙◌, ◌⊎◌, inl, inr, String, true, List, [], ◌++◌, take,
  drop, contains, arith,
}
use dssd.Raft.State.{Config, LogEntry, init}
use dssd.Raft.Cluster.{initial}
use dssd.Raft.Group.{new_group}
use dssd.Raft.Cluster.Safety.{IsConfigured}
use dssd.Raft.Machine.{Machine, MachineReach, new_machine}
use dssd.Raft.Machine.Complete.{SafeAt-agree}
use dssd.Raft.Machine.Start.{IsGroup, HasCommits-new_machine}
use dssd.Raft.Machine.Delivered.{Applied, delivered, slice, run-Applied}

module _ (members : List String) (configs : String → Config) (timeouts : String → ℕ) (m : Machine)
    (config : IsConfigured members configs) (group : IsGroup members configs)
    (run : MachineReach members (new_machine configs timeouts) m) where
  start-Applied : (j : String) → Applied ((new_machine configs timeouts).sys.node j) []
  unfolding new_machine new_group initial init
  start-Applied j = record { low = omega arith; done = refl }

  -- The member that has applied less has applied a part of the other's.
  behind :
      (i j : String)
      → contains members i ≡ true
      → contains members j ≡ true
      → (m.sys.node i).last_applied ≤ (m.sys.node j).last_applied
      → (ys : List LogEntry) × (delivered run i ++ ys ≡ delivered run j)
  behind i j mi mj le =
      let (G, B, v, c) = HasCommits-new_machine members configs timeouts config group in
      let (G', B', v', c', a) = run-Applied run (G, B, v, c, λ x mem. start-Applied x) in
      let low = (a i mi).low in
      let same =
        SafeAt-agree v'.keeps v'.logged.made (m.sys.node i).current_term (m.sys.node j).current_term
          (m.sys.node i).commit_index (m.sys.node j).commit_index (m.sys.node i).log
          (m.sys.node j).log (c'.fine i mi).safe (c'.fine j mj).safe (m.sys.node i).last_applied low
          (omega (arith, le, (a j mj).low)) in
      (
        take ((m.sys.node j).last_applied - (m.sys.node i).last_applied)
            (drop ((m.sys.node i).last_applied + 1) (m.sys.node j).log),
        ap
              (λ xs.
                xs
                ++ take ((m.sys.node j).last_applied - (m.sys.node i).last_applied)
                    (drop ((m.sys.node i).last_applied + 1) (m.sys.node j).log))
              ((a i mi).done ∙ ap (drop 1) same)
            ∙ slice (m.sys.node i).last_applied (m.sys.node j).last_applied (m.sys.node j).log le
                (v'.dated j mj).full
            ∙ sym (a j mj).done,
      )

  -- The replicas of the state machine. In a group whose members have nonempty names and whose
  -- peers are all the others, each once, where every vote request, vote, AppendEntries request
  -- and answer that is taken has been sent, lost, late, reordered or repeated, after any sequence
  -- of elections, proposals, restarts and other steps: of what the appliers of two members have
  -- handed over since they were made, all entries in order, one is the beginning of the other.
  pub delivered_agree :
      (i j : String)
      → contains members i ≡ true
      → contains members j ≡ true
      → ((ys : List LogEntry) × (delivered run i ++ ys ≡ delivered run j))
        ⊎ ((ys : List LogEntry) × (delivered run j ++ ys ≡ delivered run i))
  delivered_agree i j mi mj =
      elim (dec_lt (m.sys.node i).last_applied (m.sys.node j).last_applied) [
        | yes less ↦ inl (behind i j mi mj (omega arith))
        | no more ↦ inr (behind j i mj mi (omega arith))
      ]
