-- ===== src/Shard/Handoff.antt =====
-- sharding/handoff.py: the destination's answer to a hand-off. The texts of the reasons are the
-- constructors' names.
pub mod Fence
pub mod Success
use dssd.Prelude.{
  ℕ, String, Bool, true, false, not, Option, none, some, ◌==◌, if◌then◌else◌, Dict, lookup,
}
use dssd.Raft.State.{is_leader}
use dssd.Shard.World.{AgentState}
use dssd.Shard.State.{Json, ShardStateMachine, Waits, add_agent}

pub record HandOffRequest (F : Type 0) : Type 0 where
  pub shard_id : String
  pub term : ℕ
  pub agent : AgentState F

pub data Reason : Type 0 where
  accepted unknown_shard not_leader lost_leadership : Reason
  stale_term : (current : ℕ) → Reason

pub record HandOffResponse : Type 0 where
  pub accepted : Bool
  pub reason : Reason

abbrev pub refuse : Reason → HandOffResponse
refuse why = record { accepted = false; reason = why }

module _ {F : Type 0} where
  -- The checks before `add_agent`: the refusal, or `none` to go on.
  unfoldable pub check : HandOffRequest F → Option (ShardStateMachine F) → Option HandOffResponse
  check request none = some (refuse unknown_shard)
  check request (some shard) =
      if not (is_leader shard.raft.role)
      then some (refuse not_leader)
      else if not (shard.raft.current_term == request.term)
      then some (refuse (stale_term shard.raft.current_term))
      else none

  -- The handler, with what the waits of `add_agent` see: the shard afterwards and the answer;
  -- `none` if it still waits then.
  unfoldable pub hand_off :
      Json F
      → Waits F
      → HandOffRequest F
      → Option (ShardStateMachine F)
      → Option (Option (ShardStateMachine F) × HandOffResponse)
  unfolding check
  hand_off json waits request none = some (none, refuse unknown_shard)
  hand_off json waits request (some shard) = elim (check request (some shard)) [
    | some refusal ↦ some (some shard, refusal)
    | none ↦ elim (add_agent json waits request.agent shard) [
      | none ↦ none
      | some (shard', true) ↦ some (some shard', record { accepted = true; reason = accepted })
      | some (shard', false) ↦ some (some shard', refuse lost_leadership)
    ]
  ]
