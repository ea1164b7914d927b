-- ===== src/Playground/Network.antt =====
-- playground.py, lines 49-184: the network between the nodes, with its faults. Loss and
-- latency are whole numbers of thousandths; `draw` is what `random.random()` returns, in the same unit.
pub mod Sides
pub mod Feed
use dssd.Prelude.{
  ℕ, ◌+◌, ◌-◌, min, String, Bool, true, false, not, ◌&&◌, ◌||◌, Option, none, some, List, [], ◌∷◌,
  ◌++◌, length, drop, leb, ◌==◌, str_eq, contains, if◌then◌else◌, Dict, lookup, insert, remove,
  fill,
}
use dssd.Raft.State.{Raft}
use dssd.Shard.World.{ℤ, pos, negsuc}

pub data Plane : Type 0 where
  swim raft handoff : Plane

abbrev pub is_raft : Plane → Bool
is_raft raft = true
is_raft swim = false
is_raft handoff = false

-- What the page draws: a number, and who sent what to whom.
pub record Packet : Type 0 where
  pub i : ℕ
  pub p : Plane
  pub k : String
  pub a : String
  pub b : String
  pub ok : Bool
  pub g : String

-- Of a listener only that it is there is kept.
pub record MemoryNetwork : Type 0 where
  pub latency : ℕ
  pub loss : ℕ
  pub down : List String
  pub side : Dict ℕ
  pub swim_inbox : List String
  pub groups : Dict (Dict Raft)
  pub packets : List Packet
  pub tap_raft_heartbeats : Bool
  pub seq : ℕ

unfoldable pub new_network : (latency : ℕ) (tap_raft_heartbeats : Bool) → MemoryNetwork
new_network latency tap_raft_heartbeats = record {
  latency = latency;
  loss = 0;
  down = [];
  side = [];
  swim_inbox = [];
  groups = [];
  packets = [];
  tap_raft_heartbeats = tap_raft_heartbeats;
  seq = 0;
}

-- `d.get(k, 0)`
abbrev pub get_or_zero : Option ℕ → ℕ
get_or_zero none = 0
get_or_zero (some n) = n

-- `delivers`
unfoldable pub delivers : (draw : ℕ) (src dst : String) → MemoryNetwork → Bool
unfolding lookup
delivers draw src dst net =
    (not (contains net.down src)
      && (not (contains net.down dst)
          && get_or_zero (lookup src net.side) == get_or_zero (lookup dst net.side)))
    && leb net.loss draw

-- `tap`, which keeps the last 300 packets.
unfoldable pub tap :
    Plane → (kind src dst : String) (ok : Bool) (group : String) → MemoryNetwork → MemoryNetwork
tap plane kind src dst ok group net =
    if is_raft plane
      && (not net.tap_raft_heartbeats && (str_eq kind "heartbeat" || str_eq kind "reply"))
    then net
    else record net { seq = net.seq + 1; packets = drop (length seen - 300) seen }
  where
    packet : Packet
    packet = record { i = net.seq + 1; p = plane; k = kind; a = src; b = dst; ok = ok; g = group }

    seen : List Packet
    seen = net.packets ++ packet ∷ []

-- `_Endpoint.sendto`: the network, and whether the datagram is under way.
unfoldable pub sendto : (draw : ℕ) (kind me dst : String) → MemoryNetwork → MemoryNetwork × Bool
unfolding delivers tap
sendto draw kind me dst net =
    (tap swim kind me dst (delivers draw me dst net) "" net, delivers draw me dst net)

-- `swim_listener` has been called for this node.
unfoldable pub listen : (node_id : String) → MemoryNetwork → MemoryNetwork
listen node_id net =
    if contains net.swim_inbox node_id
    then net
    else record net { swim_inbox = net.swim_inbox ++ node_id ∷ [] }

unfoldable pub discard : String → List String → List String
discard x [] = []
discard x (y ∷ ys) = let rest = discard x ys in if str_eq y x then rest else y ∷ rest

-- `_Endpoint.close`
unfoldable pub close : (me : String) → MemoryNetwork → MemoryNetwork
unfolding discard
close me net = record net { swim_inbox = discard me net.swim_inbox }

-- `_Endpoint._arrive`: whether the listener gets it.
unfoldable pub arrive : (dst : String) → MemoryNetwork → Bool
arrive dst net = contains net.swim_inbox dst && not (contains net.down dst)

-- `_rpc` up to its first sleep; false is a ConnectionError.
unfoldable pub rpc_send :
    (draw : ℕ) (kind me peer group : String) → MemoryNetwork → MemoryNetwork × Bool
unfolding delivers tap
rpc_send draw kind me peer group net =
    (tap raft kind me peer (delivers draw me peer net) group net, delivers draw me peer net)

-- The rest of `_rpc`, with the handler of the peer's node: the network, and the reply, where `none`
-- is a ConnectionError. The outer `none` is the KeyError of a peer or group that is missing.
unfoldable pub rpc_serve {ℓ} :
    {Reply : Type ℓ}
    → (handler : Raft → Raft × Reply) (draw : ℕ) (me peer group : String) → MemoryNetwork
    → Option (MemoryNetwork × Option Reply)
rpc_serve handler draw me peer group net = elim (lookup peer net.groups) [
  | none ↦ none
  | some nodes ↦ elim (lookup group nodes) [
    | none ↦ none
    | some node ↦
        let (node', reply) = handler node in
        let served = record net { groups = insert peer (insert group node' nodes) net.groups } in
        let ok = delivers draw peer me served in
        some (tap raft "reply" peer me ok group served, if ok then some reply else none)
  ]
]

-- `max(0.0, min(limit, x))`
abbrev pub limited : (limit : ℕ) → ℤ → ℕ
limited limit (pos n) = min limit n
limited limit (negsuc n) = 0

unfoldable pub set_loss : (fraction : ℤ) → MemoryNetwork → MemoryNetwork
set_loss fraction net = record net { loss = limited 900 fraction }

unfoldable pub set_latency : (seconds : ℤ) → MemoryNetwork → MemoryNetwork
set_latency seconds net = record net { latency = limited 300 seconds }

-- The dict comprehension of `partition`, from the group numbered `i` on.
unfoldable pub sides : (i : ℕ) → List (List String) → Dict ℕ → Dict ℕ
unfolding fill
sides i [] d = d
sides i (group ∷ groups) d = sides (i + 1) groups (fill group i d)

-- `partition`; None, which heals the network, is the empty list.
unfoldable pub partition : List (List String) → MemoryNetwork → MemoryNetwork
unfolding sides
partition groups net = record net { side = sides 0 groups [] }
