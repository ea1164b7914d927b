-- ===== src/Swim/Agent.antt =====
-- swim.py, lines 88-97, 127-155 and 190-226: a node's life, from `start` to `stop`, and its two
-- periodic tasks. What the transport and the network answer are arguments.
pub mod Detect
use dssd.Prelude.{
  ℕ, ◌+◌, ◌*◌, String, Bool, true, false, not, ◌||◌, Option, none, some, List, [], ◌∷◌, ◌++◌, min,
  length, take, if◌then◌else◌, values,
}
use dssd.Addr.{Decimal, format_addr}
use dssd.Swim.Member.{State, alive, suspect, dead, Member}
use dssd.Swim.Gossip.{Node, fresh, take_broadcasts}
use dssd.Swim.Node.{
  MsgType, ping, ping_req, ack, join, join_ack, Effect, begin_request, end_request, candidates,
  helpers, dead_members, probe, probe_failed, resurrect,
}

-- Times are in thousandths of a second.
pub record Config : Type 0 where
  pub id : String
  pub bind_host : String
  pub bind_port : ℕ
  pub protocol_period : ℕ
  pub ping_timeout : ℕ
  pub indirect_ping_count : ℕ
  pub suspicion_timeout : ℕ
  pub resurrect_interval : ℕ

abbrev pub default_config : (id : String) → Config
default_config id = record {
  id = id;
  bind_host = "127.0.0.1";
  bind_port = 0;
  protocol_period = 200;
  ping_timeout = 50;
  indirect_ping_count = 3;
  suspicion_timeout = 1000;
  resurrect_interval = 2000;
}

pub data Task : Type 0 where
  probing resurrecting : Task

-- The object: its tables, `_transport is not None`, `_bind_addr`, and the tasks but the timers,
-- which the tables hold.
pub record Agent : Type 0 where
  pub cfg : Config
  pub node : Node
  pub transport : Bool
  pub bind_addr : Option String
  pub tasks : List Task

unfoldable pub new_agent : Config → Agent
unfolding fresh
new_agent config = record {
  cfg = config;
  node = fresh config.id "";
  transport = false;
  bind_addr = none;
  tasks = [];
}

-- `start`; the transport that was opened is bound to this host and port.
unfoldable pub start : Decimal → (host : String) (port : ℕ) → Agent → Agent
unfolding format_addr
start py host port a =
    let addr = format_addr py host port in
    record a {
      node = record a.node { addr = addr };
      transport = true;
      bind_addr = some addr;
      tasks = a.tasks ++ probing ∷ resurrecting ∷ [];
    }

-- `stop`, while no `join` waits: every task is cancelled, the suspicion timers too, and the requests
-- that waited in them take back their waiters.
unfoldable pub stop : Agent → Agent
stop a = record a { node = record a.node { timers = []; waiters = [] }; tasks = [] }

-- `members`, and the property `addr`, which raises a RuntimeError before the start.
unfoldable pub members : Agent → Option (List Member)
members a = elim a.bind_addr [
  | none ↦ none
  | some addr ↦ some (
      record { id = a.cfg.id; addr = addr; state = alive; incarnation = a.node.incarnation }
      ∷ values a.node.members)
]

-- `join`, up to its wait, and from there on: false is the TimeoutError.
unfoldable pub join_begin : (contact_addr : String) → Node → Node × ℕ × Effect
unfolding begin_request
join_begin contact_addr n = begin_request contact_addr join [] "" n

unfoldable pub join_end : (seq : ℕ) → Node → Node × Bool
unfolding end_request
join_end seq n = end_request seq n

-- `_probe_once` up to its first wait: `choice` is `random.choice` of the candidates. `none` is a
-- round with nobody to probe.
unfoldable pub probe_once :
    (choice : Member → List Member → Member) → Node → Option (Member × Node × ℕ × Effect)
unfolding probe candidates
probe_once choice n = elim (candidates (values n.members)) [
  | [] ↦ none
  | m ∷ ms ↦ let (n', seq, effect) = probe (choice m ms) n in some (choice m ms, n', seq, effect)
]

-- The requests to the helpers, one after the other, with their sequence numbers.
unfoldable pub ask_helpers : (target_addr : String) → List Member → Node → Node × List (ℕ × Effect)
unfolding begin_request
ask_helpers target_addr [] n = (n, [])
ask_helpers target_addr (h ∷ hs) n =
    let (n', seq, effect) = begin_request h.addr ping_req [] target_addr n in
    let (n'', asks) = ask_helpers target_addr hs n' in (n'', (seq, effect) ∷ asks)

-- The second part of `_probe_once`, when the ping was not answered: `sample` is `random.sample`.
unfoldable pub probe_indirectly :
    (sample : List Member → ℕ → List Member) (count : ℕ) (target : Member)
    → List Member
    → Node
    → Node × List (ℕ × Effect)
unfolding ask_helpers helpers
probe_indirectly sample count target among n =
    let others = helpers target.id among in
    ask_helpers target.addr (sample others (min count (length others))) n

-- The ends of these requests: whether any brought an ack.
unfoldable pub end_requests : List ℕ → Node → Node × Bool
unfolding end_request
end_requests [] n = (n, false)
end_requests (seq ∷ seqs) n =
    let (n', acked) = end_request seq n in
    let (n'', others) = end_requests seqs n' in (n'', acked || others)

-- The last part of `_probe_once`.
unfoldable pub probe_end : (target : Member) → List ℕ → Node → Node
unfolding end_requests probe_failed
probe_end target seqs n =
    let (n', acked) = end_requests seqs n in if acked then n' else probe_failed target n'

-- `_resurrect_once` up to its wait, and from there on.
unfoldable pub resurrect_once :
    (choice : Member → List Member → Member) → Node → Option (Member × Node × ℕ × Effect)
unfolding dead_members begin_request
resurrect_once choice n = elim (dead_members (values n.members)) [
  | [] ↦ none
  | m ∷ ms ↦
      let (n', seq, effect) = begin_request (choice m ms).addr ping [] "" n in
      some (choice m ms, n', seq, effect)
]

unfoldable pub resurrect_end : (target : Member) (seq : ℕ) → Node → Node
unfolding end_request resurrect
resurrect_end target seq n =
    let (n', acked) = end_request seq n in if acked then resurrect target n' else n'
