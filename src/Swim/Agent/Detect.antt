-- ===== src/Swim/Agent/Detect.antt =====
-- swim.py: what a probe does to a member that answers, and to one that does not.
use dssd.Prelude.{ℕ, ◌≡◌, true, false, some, List, [], ◌∷◌, ◌++◌, lookup}
use dssd.Swim.Member.{suspect, Member}
use dssd.Swim.Gossip.{Node}
use dssd.Swim.Node.Reach.{Reach}
use dssd.Swim.Node.Timers.{RunsOrEnded}
use dssd.Swim.Agent.{end_requests, probe_end}

-- The tables of two nodes that differ in their waiters only.
pub record SameTables (n m : Node) : Type 0 where
  pub members : m.members ≡ n.members
  pub timers : m.timers ≡ n.timers
  pub broadcasts : m.broadcasts ≡ n.broadcasts

-- The suspicion of this member: on record, under a timer and queued; and by the
-- node `k` the timer runs still, or has ended and decided.
pub record IsSuspected (c : Member) (n m k : Node) : Type 0 where
  pub now : lookup c.id m.members ≡ some (record c { state = suspect })
  pub timed : m.timers ≡ n.timers ++ record c { state = suspect } ∷ []
  pub queued : lookup c.id m.broadcasts ≡ some (record c { state = suspect }, 0)
  pub later : RunsOrEnded (record c { state = suspect }) m k

pub record Detects (t c : Member) (seqs : List ℕ) (n k : Node) : Type 0 where
  pub answered : (end_requests seqs n).1 ≡ true → SameTables n (probe_end t seqs n)
  pub silent : (end_requests seqs n).1 ≡ false → IsSuspected c n (probe_end t seqs n) k
