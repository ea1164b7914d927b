-- ===== src/Raft/Cluster/Safety.antt =====
-- Election safety: a term has one leader at most.
use dssd.Prelude.{ℕ, ◌+◌, ◌≡◌, ◌≢◌, String, true, List, length, contains, count_overlap, arith}
use dssd.Raft.State.{Config, is_leader, init}
use dssd.Raft.Cluster.{System, Reach, initial}
use dssd.Raft.Cluster.Invariant.{Inv}
use dssd.Raft.Cluster.Steps.{Reach-Inv}

-- Each member is configured with its own name and with the others as its peers.
unfoldable pub IsConfigured : List String → (String → Config) → Type 0
IsConfigured members configs =
    (i : String)
    → contains members i ≡ true
    → ((configs i).id ≡ i)
      × (i ≢ "")
      × (length (configs i).peers + 1 ≡ length members)
      × ((p : String) → contains (configs i).peers p ≡ true → contains members p ≡ true)

pub Inv-initial :
    (members : List String) (configs : String → Config) (timeouts : String → ℕ)
    → IsConfigured members configs
    → Inv members (initial configs timeouts)
unfolding initial IsConfigured init
Inv-initial members configs timeouts c = record {
  member = λ i h.
      let (id, named, size, peers) = c i h in
      record { id = id; named = named; size = size; peers = peers };
  cast = λ c t v g. cc;
  single = λ c c' t v g g'. cc;
  tally = λ c t. omega arith;
  leads = λ i h l. cc;
}

-- Election safety. In a group whose members have nonempty names and are configured with the
-- others as peers, after any sequence of elections, vote requests, replies, restarts and other
-- steps of the nodes, in which messages may be lost, delayed, reordered and repeated, two members
-- that lead the same term are the same member.
pub one_leader :
    (members : List String) (configs : String → Config) (timeouts : String → ℕ) (s : System)
    → IsConfigured members configs
    → Reach members (initial configs timeouts) s
    → (i j : String) → contains members i ≡ true
    → contains members j ≡ true
    → is_leader (s.node i).role ≡ true
    → is_leader (s.node j).role ≡ true
    → (s.node i).current_term ≡ (s.node j).current_term
    → i ≡ j
one_leader members configs timeouts s config run i j mi mj li lj same =
    let (w, gi, gj) =
      count_overlap (s.granted i term) (s.granted j term) members
        (omega (arith, v.leads i mi li, rw (← same) at (v.leads j mj lj))) in
    v.single i j term w gi gj
  where
    term : ℕ
    term = (s.node i).current_term

    v : Inv members s
    v = Reach-Inv run (Inv-initial members configs timeouts config)
