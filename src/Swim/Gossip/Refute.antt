-- ===== src/Swim/Gossip/Refute.antt =====
-- A node that hears itself called suspect or dead.
use dssd.Prelude.{
  ◌+◌, ◌≤◌, ◌<◌, ◌≡◌, ◌≢◌, refl, ◌⊎◌, true, some, eq_refl, lookup, lookup-insert, arith,
}
use dssd.Swim.Member.{State, alive, suspect, dead, severity, Member, supersedes}
use dssd.Swim.Gossip.{Node, me, refute, merge}
use dssd.Swim.Gossip.Lookup.{merge-own}

severity-pos : (s : State) → s ≢ alive → 0 < severity s
severity-pos alive h = absurd (h refl)
severity-pos suspect h = omega arith
severity-pos dead h = omega arith

-- What the refutation of `u` leaves behind.
pub record Refutes (u : Member) (n n' : Node) : Type 0 where
  pub newer : n'.incarnation ≡ u.incarnation + 1
  pub queued : lookup n.id n'.broadcasts ≡ some (me n', 0)
  pub wins : supersedes (me n') u ≡ true
  pub others : n'.members ≡ n.members

-- A suspect or dead rumour about the node itself that is not older than its incarnation is
-- refuted: the node takes the next incarnation, queues the news that it is alive, this news
-- supersedes the rumour, and the view of the others is unchanged.
pub merge-Refutes :
    (u : Member) (n : Node)
    → u.id ≡ n.id
    → u.state ≢ alive
    → n.incarnation ≤ u.incarnation
    → Refutes u n (merge u n)
merge-Refutes u n own bad new = rw (merge-own u n own) (
    unfold refute supersedes in
    ground (
      arith,
      severity-pos u.state bad,
      lookup-insert n.id n.id (record (me n) { incarnation = u.incarnation + 1 }, 0) n.broadcasts,
      eq_refl n.id,
    ))

-- Any other rumour about the node changes nothing.
pub merge-own_old :
    (u : Member) (n : Node)
    → u.id ≡ n.id
    → (u.state ≡ alive) ⊎ (u.incarnation < n.incarnation)
    → merge u n ≡ n
merge-own_old u n own old = rw (merge-own u n own) (unfold refute in ground arith)
