-- ===== src/Swim/Node.antt =====
-- swim.py, lines 54-70, 162-226, 252-269: a node's messages. What a coroutine does between two
-- waits is one function; the peer that `random` picks, and what the network answers, are arguments.
pub mod Reach
pub mod Timers
pub mod Runs
use dssd.Prelude.{
  ℕ, ◌+◌, String, Bool, true, false, not, Option, none, some, List, [], ◌∷◌, ◌++◌, map, ◌==◌,
  str_eq, if◌then◌else◌, lookup, values, length, min, take,
}
use dssd.Swim.Member.{State, alive, suspect, dead, same_state, Member}
use dssd.Swim.Gossip.{Node, me, set_member, mark, merge, merge_all, take_broadcasts}

pub data MsgType : Type 0 where
  ping ping_req ack join join_ack : MsgType

pub record Message : Type 0 where
  pub type : MsgType
  pub seq : ℕ
  pub sender : Member
  pub target_addr : String
  pub updates : List Member

-- What a node does to the world: send a datagram, or start a task that relays a ping.
pub data Effect : Type 0 where
  send : (addr : String) → Message → Effect
  relay : Message → Effect

-- `_request`, up to the wait: a new sequence number, a waiter for it, and the message, to an address
-- that `split_addr` reads; of another one `_send` raises a ValueError.
unfoldable pub begin_request :
    (addr : String) → MsgType → List Member → (target_addr : String) → Node → Node × ℕ × Effect
begin_request addr type updates target_addr n = (n', seq, send addr message)
  where
    seq : ℕ
    seq = n.seq_no + 1

    n' : Node
    n' = record n { seq_no = seq; waiters = n.waiters ++ (seq, false) ∷ [] }

    message : Message
    message = record {
      type = type;
      seq = seq;
      sender = me n;
      target_addr = target_addr;
      updates = updates;
    }

-- `self._waiters.get(seq)`: whether the future is done.
unfoldable pub waiting : ℕ → List (ℕ × Bool) → Option Bool
waiting seq [] = none
waiting seq ((s, done) ∷ ws) = if s == seq then some done else waiting seq ws

unfoldable pub forget : ℕ → List (ℕ × Bool) → List (ℕ × Bool)
forget seq [] = []
forget seq ((s, done) ∷ ws) =
    let rest = forget seq ws in if s == seq then rest else (s, done) ∷ rest

unfoldable pub resolve : ℕ → List (ℕ × Bool) → List (ℕ × Bool)
resolve seq [] = []
resolve seq ((s, done) ∷ ws) = if s == seq then (s, true) ∷ ws else (s, done) ∷ resolve seq ws

-- The rest of `_request`: whether the ack came, and the waiter removed. A future that is not
-- done when the wait ends is the timeout.
unfoldable pub end_request : ℕ → Node → Node × Bool
unfolding waiting forget
end_request seq n = (
  record n { waiters = forget seq n.waiters },
  elim (waiting seq n.waiters) [ none ↦ false | some done ↦ done ],
)

-- The members that a probe picks its target from.
unfoldable pub candidates : List Member → List Member
candidates [] = []
candidates (m ∷ ms) =
    let rest = candidates ms in if not (same_state m.state dead) then m ∷ rest else rest

-- The candidates that may be asked to ping the target.
unfoldable pub helpers : (target : String) → List Member → List Member
helpers target [] = []
helpers target (m ∷ ms) =
    let rest = helpers target ms in if not (str_eq m.id target) then m ∷ rest else rest

-- The members that a resurrection picks its target from.
unfoldable pub dead_members : List Member → List Member
dead_members [] = []
dead_members (m ∷ ms) =
    let rest = dead_members ms in if same_state m.state dead then m ∷ rest else rest

-- `_reply`
unfoldable pub reply : Message → MsgType → List Member → Node → Effect
reply req type updates n =
    send req.sender.addr
      (record { type = type; seq = req.seq; sender = me n; target_addr = ""; updates = updates })

-- The branches of `_handle` after the gossip is merged.
unfoldable pub respond : MsgType → Message → Node → Node × List Effect
unfolding reply resolve
respond ping msg n = let (n', updates) = take_broadcasts n in (n', reply msg ack updates n' ∷ [])
respond join msg n = (n, reply msg join_ack (values n.members) n ∷ [])
respond ping_req msg n = (n, relay msg ∷ [])
respond _ msg n = (record n { waiters = resolve msg.seq n.waiters }, [])

-- `_handle`
unfoldable pub handle : Message → Node → Node × List Effect
unfolding respond merge_all
handle msg n = respond msg.type msg (merge_all msg.updates (merge msg.sender n))

-- `_probe_once`, up to the direct ping of the target that was picked.
unfoldable pub probe : (target : Member) → Node → Node × ℕ × Effect
unfolding begin_request
probe target n =
    let (n', updates) = take_broadcasts n in begin_request target.addr ping updates "" n'

-- The rest of it, when neither the ping nor a helper brought an ack.
unfoldable pub probe_failed : (target : Member) → Node → Node
probe_failed target n = mark target.id suspect alive none n

-- `_relay_ping`, up to the wait, and after it.
unfoldable pub relay_ping : Message → Node → Node × ℕ × Effect
unfolding begin_request
relay_ping req n = begin_request req.target_addr ping [] "" n

unfoldable pub relay_ack : Message → (acked : Bool) → Node → List Effect
relay_ack req acked n =
    if acked
    then send req.sender.addr
        (record { type = ack; seq = req.seq; sender = me n; target_addr = ""; updates = [] })
      ∷ []
    else []

unfoldable pub resurrect_current : Option Member → Node → Node
unfolding set_member
resurrect_current none n = n
resurrect_current (some current) n =
    if same_state current.state dead
    then set_member (record current { state = alive; incarnation = current.incarnation + 1 }) n
    else n

-- `_resurrect_once`, when the dead target that was picked answered.
unfoldable pub resurrect : (target : Member) → Node → Node
unfolding resurrect_current
resurrect target n = resurrect_current (lookup target.id n.members) n
