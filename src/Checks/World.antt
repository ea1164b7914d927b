-- ===== src/Checks/World.antt =====
-- playground.py: a world of one region server that is down and still holds its agent.
use dssd.Prelude.{
  ℕ, ◌≡◌, refl, Bool-cases, str_eq, str_eq→eq, subst, inl, inr, false, some, [], ◌∷◌, lookup, arith,
}
use dssd.Shard.World.{AgentState}
use dssd.Shard.State.{ShardStateMachine, new_shard}
use dssd.Playground.Cluster.{new_cluster, add_down}
use dssd.Playground.World.{World, shard_at}
use dssd.Playground.World.Total.{Hosts, HostsAll}
use dssd.Playground.World.Lost.{Reports, report-Reports}

abbrev roamer : AgentState ℕ
roamer = record { id = "a1"; x = 3; y = 4; vx = 1; vy = 0 }

abbrev replica : ShardStateMachine ℕ
replica =
    record (new_shard (record { id = "r0"; peers = []; group = "0-0"; heartbeat_interval = 5 })
      20) { agents = ("a1", roamer) ∷ [] }

abbrev world : World ℕ
world = record {
  cluster = add_down "r0" (new_cluster 80 false);
  ids = "r0" ∷ [];
  shard_ids = "0-0" ∷ [];
  shards = ("r0", ("0-0", replica) ∷ []) ∷ [];
  region_tasks = [];
  expected = "a1" ∷ [];
  last_leaders = [];
}

world-HostsAll : HostsAll world.shard_ids world
unfolding HostsAll Hosts shard_at lookup
world-HostsAll sid shard n node = elim (Bool-cases (str_eq "0-0" sid)) [
  | inl s ↦ elim (Bool-cases (str_eq "r0" n)) [
    | inl r ↦
        subst (λ id. (m : ShardStateMachine ℕ) × (shard_at n id world ≡ some m))
          (str_eq→eq "0-0" sid s)
          (subst (λ id. (m : ShardStateMachine ℕ) × (shard_at id "0-0" world ≡ some m))
            (str_eq→eq "r0" n r) (replica, refl))
    | inr r ↦ ground (arith, node, r)
  ]
  | inr s ↦ ground (arith, shard, s)
]

report-Reports_example : Reports 7 world
report-Reports_example = report-Reports 7 world world-HostsAll
