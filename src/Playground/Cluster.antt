-- ===== src/Playground/Cluster.antt =====
-- playground.py, lines 146-204: what the two clusters share. The texts of the feed are the
-- constructors of `Line`; the clock's reading is an argument.
use dssd.Prelude.{ℕ, String, Bool, true, false, List, [], ◌∷◌, ◌++◌, Dict}
use dssd.Playground.Network.{Packet, MemoryNetwork, new_network, partition}

pub data Line : Type 0 where
  healed : Line
  split : (groups : List (List String)) → Line
  accepted : (leader text : String) (index term : ℕ) → Line
  rejected : (text : String) → Line
  crashed restarted : (id : String) → Line
  won campaigns : (id : String) (term : ℕ) → Line
  stepped_down : (id : String) → Line
  suspects declares_dead : (by target : String) → Line
  recovered : (target : String) → Line
  owns : (leader shard : String) (term : ℕ) → Line
  unowned : (shard : String) → Line

pub record Event : Type 0 where
  pub t : ℕ
  pub line : Line

-- The attributes of every cluster; `running` is whether its task is there.
pub record Cluster : Type 0 where
  pub net : MemoryNetwork
  pub events : List Event
  pub running : Bool
  pub ready : Bool

unfoldable pub new_cluster : (latency : ℕ) (tap_raft_heartbeats : Bool) → Cluster
unfolding new_network
new_cluster latency tap_raft_heartbeats = record {
  net = new_network latency tap_raft_heartbeats;
  events = [];
  running = false;
  ready = false;
}

-- `note`
unfoldable pub note : (now : ℕ) → Line → Cluster → Cluster
note now line c = record c { events = c.events ++ record { t = now; line = line } ∷ [] }

-- `start`, of which a second call does nothing, and the point where `_run` has booted.
unfoldable pub start : Cluster → Cluster
start c = record c { running = true }

unfoldable pub booted : Cluster → Cluster
booted c = record c { ready = true }

-- What every `_shutdown` begins with.
unfoldable pub shutdown : Cluster → Cluster
shutdown c = record c { running = false; ready = false }

-- `partition`, with its line in the feed.
unfoldable pub partition_cluster : (now : ℕ) → List (List String) → Cluster → Cluster
unfolding note partition
partition_cluster now groups c =
    note now (elim groups [ [] ↦ healed | g ∷ gs ↦ split (g ∷ gs) ])
      (record c { net = partition groups c.net })

pub record Drained : Type 0 where
  pub t : ℕ
  pub events : List Event
  pub packets : List Packet
  pub loss : ℕ
  pub latency : ℕ
  pub side : Dict ℕ

-- `_drain`: what a report takes out of the feed.
unfoldable pub drain : (now : ℕ) → Cluster → Cluster × Drained
drain now c = (
  record c { events = []; net = record c.net { packets = [] } },
  record {
    t = now;
    events = c.events;
    packets = c.net.packets;
    loss = c.net.loss;
    latency = c.net.latency;
    side = c.net.side;
  },
)

-- A node is taken off the network, and put back.
unfoldable pub add_down : String → Cluster → Cluster
add_down id c = record c { net = record c.net { down = c.net.down ++ id ∷ [] } }
