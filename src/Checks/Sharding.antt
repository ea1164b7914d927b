-- ===== src/Checks/Sharding.antt =====
-- sharding: whole numbers for Python's floats, a world of 4 by 2 in two shards, and a json library
-- that knows two lists.
use dssd.Prelude.{
  ℕ, inl, inr, ◌≡◌, refl, ◌/◌, ◌+◌, ◌-◌, ◌*◌, ◌==◌, true, none, some, [], ◌∷◌, ltb, if◌then◌else◌,
  ◌&&◌, lookup, insert, contains, arith,
}
use dssd.Raft.State.{Raft, LogEntry, init, leader, propose}
use dssd.Shard.World.{
  pos, Python, GridConfig, AgentState, shard_id_for, all_shard_ids, cell, step, bounce,
}
use dssd.Shard.World.Grid.{shard_id_for-contained}
use dssd.Shard.State.{
  Json, ShardStateMachine, apply, add_agent_begin, wait_applied, wait_applied_loop,
  wait_applied_once, wait_shard, wait_shard_loop, Waits, add_agent, add_agent_end, insert_all,
  propose_tick,
}
use dssd.Shard.State.Snapshot.{Proposes, add_agent_begin-Proposes}
use dssd.Shard.State.Rollback.{SeenApplied, wait_applied-SeenApplied, Loses, add_agent_end-Loses}
use dssd.Shard.Handoff.{HandOffRequest, accepted, hand_off, check}
use dssd.Shard.Handoff.Fence.{Accepts, hand_off-Accepts}
use dssd.Shard.Handoff.Success.{hand_off-succeeds}
use dssd.Shard.Region.{
  Departure, tick_shards, tick_shard, move_all, leaving, record_accepted, finish_shards,
}
use dssd.Shard.Region.Tick.{Ticks, tick-Ticks}
use dssd.Shard.Region.Keep.{was_accepted}

abbrev whole : Python ℕ
whole = record {
  add = ◌+◌;
  sub = ◌-◌;
  mul = ◌*◌;
  neg = λ x. x;
  lt = ltb;
  literal = λ n. n;
  div_int = λ w n. if n == 0 then none else some (w / n);
  floor_div = λ x w. if w == 0 then none else some (x / w);
  int = λ x. some (pos x);
  shard_name = λ row col. if col == 0 then "0-0" else "0-1";
}

abbrev grid : GridConfig ℕ
grid = record { width = 4; height = 2; cols = 2; rows = 1 }

-- A place outside the world belongs to the last column.
shard_id_for-contained_example : contains (all_shard_ids whole grid) "0-1" ≡ true
unfolding shard_id_for cell
shard_id_for-contained_example =
    shard_id_for-contained whole 9 1 grid "0-1" (omega arith) (omega arith) refl

abbrev ann : AgentState ℕ
ann = record { id = "ann"; x = 1; y = 1; vx = 1; vy = 0 }

abbrev bob : AgentState ℕ
bob = record { id = "bob"; x = 0; y = 1; vx = 0; vy = 0 }

abbrev two_lists : Json ℕ
two_lists = record {
  dumps = λ l. elim l [ [] ↦ 0 ∷ [] | _ ∷ _ ↦ 1 ∷ [] ];
  loads = λ c. elim c [ [] ↦ none | b ∷ _ ↦ if b == 0 then some [] else some (bob ∷ []) ];
}

abbrev boss : Raft
boss = record (init (record { id = "r0"; peers = []; group = "0-0"; heartbeat_interval = 5 }) 20) {
  current_term = 3;
  role = leader;
  leader_id = "r0";
}

abbrev vacant : ShardStateMachine ℕ
vacant = record { raft = boss; agents = [] }

abbrev with_ann : ShardStateMachine ℕ
with_ann = record { raft = boss; agents = ("ann", ann) ∷ [] }

add_agent_begin-Proposes_example : Proposes two_lists bob vacant
unfolding init insert
add_agent_begin-Proposes_example =
    add_agent_begin-Proposes two_lists bob vacant
      (record { reads = refl; nonempty = λ e. ground arith }) tt refl

-- The entry is applied at the second look.
wait_applied-SeenApplied_example :
    SeenApplied 1 3 ((10, boss) ∷ (12, record boss { last_applied = 1 }) ∷ [])
unfolding init wait_applied wait_applied_loop wait_applied_once
wait_applied-SeenApplied_example =
    wait_applied-SeenApplied 1 20 10 boss ((12, record boss { last_applied = 1 }) ∷ []) refl

abbrev news : LogEntry
news = record { term = 4; index = 1; command = 1 ∷ [] }

-- While this node waits for `ann`, the entry of the next leader with `bob` is applied.
add_agent_end-Loses_example :
    Loses two_lists "bob" bob []
      (record { raft = (add_agent_begin two_lists ann vacant).0.raft; agents = ("bob", bob) ∷ [] })
unfolding lookup apply insert_all insert add_agent_begin
add_agent_end-Loses_example =
    add_agent_end-Loses two_lists ann bob "bob" vacant _ news (("bob", bob) ∷ [])
      (record { reads = refl; nonempty = λ e. ground arith })
      (record { reads = refl; nonempty = λ e. ground arith }) tt (refl, refl, tt) refl refl refl
      refl

abbrev request : HandOffRequest ℕ
request = record { shard_id = "0-0"; term = 3; agent = bob }

-- The one entry is applied at the second look after it was proposed.
abbrev offered : ShardStateMachine ℕ
offered = record { raft = (propose boss (1 ∷ [])).0; agents = ("bob", bob) ∷ [] }

abbrev settled : ShardStateMachine ℕ
settled = record offered { raft = record (propose boss (1 ∷ [])).0 { last_applied = 1 } }

abbrev waits : Waits ℕ
waits = record {
  timeout = 20;
  start = 10;
  catching_up = [];
  proposed = 10;
  applying = (11, offered) ∷ (12, settled) ∷ [];
}

hand_off-Accepts_example : Accepts two_lists waits request vacant settled
unfolding init insert propose hand_off check add_agent add_agent_begin add_agent_end wait_shard
    wait_shard_loop wait_applied_once
hand_off-Accepts_example =
    hand_off-Accepts two_lists waits request vacant settled
      (record { accepted = true; reason = accepted }) refl refl

abbrev moved_ann : ShardStateMachine ℕ
moved_ann = record { raft = (propose boss (1 ∷ [])).0; agents = ("ann", record ann { x = 2 }) ∷ [] }

abbrev settled_ann : ShardStateMachine ℕ
settled_ann = record moved_ann { raft = record (propose boss (1 ∷ [])).0 { last_applied = 1 } }

-- `ann` leaves for the other shard.
abbrev departed : Departure ℕ
departed = record { shard = "0-0"; agent = record ann { x = 2 }; dest = "0-1" }

-- She is accepted, and goes once the shard has caught up.
tick-Ticks_example :
    Ticks whole two_lists 1 grid "0-0" "ann" ann
      (was_accepted "0-0" "ann" ((departed, true) ∷ []) && true)
      settled_ann
      (("0-0", moved_ann) ∷ [])
      (finish_shards two_lists
        (λ id. true)
        (record_accepted ((departed, true) ∷ []) [])
        (("0-0", settled_ann) ∷ []))
unfolding tick_shards tick_shard move_all leaving init step bounce shard_id_for cell propose_tick
    lookup
tick-Ticks_example =
    tick-Ticks whole two_lists 1 grid (λ id. true) "0-0" "ann" ann settled_ann
      (("0-0", with_ann) ∷ []) (("0-0", moved_ann) ∷ []) (("0-0", settled_ann) ∷ []) (departed ∷ [])
      ((departed, true) ∷ []) refl (record { shard = with_ann; found = refl; agent = refl }) refl

hand_off-succeeds_example :
    (t : ShardStateMachine ℕ) × (hand_off two_lists waits request (some vacant)
      ≡ some (some t, record { accepted = true; reason = accepted }))
unfolding init insert propose add_agent_begin
hand_off-succeeds_example =
    hand_off-succeeds two_lists waits request vacant refl refl (omega arith)
      (refl, refl, omega arith, (refl, refl, omega arith, (refl, refl, omega arith, tt)))
      (inr (inl (omega arith)))
