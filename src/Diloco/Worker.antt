-- ===== src/Diloco/Worker.antt =====
-- diloco/worker.py, lines 35-149: a worker, which trains and syncs, and answers Sync as the leader.
-- The training step and the network are arguments.
pub mod Serve
pub mod Travel
use dssd.Prelude.{
  ℕ, String, Bool, true, false, not, ◌||◌, Option, none, some, List, [], ◌∷◌, map, ◌==◌, str_eq,
  if◌then◌else◌, Dict, lookup, insert,
}
use dssd.Raft.State.{Raft, is_leader}
use dssd.Swim.Member.{State, alive, same_state, Member}
use dssd.Swim.Gossip.{Node, all_members}
use dssd.Diloco.Barrier.{RoundBarrier, new_barrier, submit, submit_end}
use dssd.Diloco.Outer.{Tensors, OuterOptimizer, new_optimizer, pseudo_gradient, outer_step}

-- The proto's Tensor, and torch's conversions: `t.shape`, `t.flatten().tolist()`, and
-- `torch.tensor(data).reshape(shape)`, where `none` is an exception.
pub record TensorPb (F : Type 0) : Type 0 where
  pub key : String
  pub shape : List ℕ
  pub values : List F

pub record Layout (T F : Type 0) : Type 0 where
  pub shape : T → List ℕ
  pub flatten : T → List F
  pub reshape : List F → List ℕ → Option T

module _ {T F : Type 0} (layout : Layout T F) where
  unfoldable pub state_to_pb : Dict T → List (TensorPb F)
  state_to_pb [] = []
  state_to_pb ((k, v) ∷ state) =
      record { key = k; shape = layout.shape v; values = layout.flatten v } ∷ state_to_pb state

  -- The dict comprehension, from the state built so far.
  unfoldable pub state_from_pb : List (TensorPb F) → Dict T → Option (Dict T)
  unfolding insert
  state_from_pb [] state = some state
  state_from_pb (t ∷ ts) state = elim (layout.reshape t.values t.shape) [
    | none ↦ none
    | some v ↦ state_from_pb ts (insert t.key v state)
  ]

pub record SyncRequest (F : Type 0) : Type 0 where
  pub worker_id : String
  pub term : ℕ
  pub pseudo_gradient : List (TensorPb F)

pub record SyncResponse (F : Type 0) : Type 0 where
  pub round : ℕ
  pub global_state : List (TensorPb F)

-- The object. `_barrier` and `_barrier_term`, which is -1 while there is no barrier, are one field.
pub record Worker (T M : Type 0) : Type 0 where
  pub id : String
  pub swim : Node
  pub raft : Raft
  pub peer_addrs : Dict String
  pub model : Dict T
  pub global_state : Dict T
  pub round : ℕ
  pub barrier : Option (ℕ × RoundBarrier (Dict T) (OuterOptimizer T M))

-- What `Sync` does up to its wait: it aborts the call, fails on a pseudo-gradient that torch does
-- not read, with the barrier of the term in place, fails in the outer step, or has submitted and
-- woken these.
pub data SyncStart (T M : Type 0) : Type 0 where
  refused : SyncStart T M
  malformed : Worker T M → SyncStart T M
  fault : SyncStart T M
  joined : Worker T M → (woken : List String) → SyncStart T M

-- What a round of `_outer_sync` comes to: another one, an exception, or the end.
pub data OuterSync (T M : Type 0) : Type 0 where
  again : OuterSync T M
  raised : OuterSync T M
  done : Worker T M → OuterSync T M

abbrev pub alive_ids : List Member → List String
alive_ids [] = []
alive_ids (m ∷ ms) =
    let rest = alive_ids ms in if same_state m.state alive then m.id ∷ rest else rest

module _ {T M : Type 0} where
  -- `_alive_members`
  unfoldable pub alive_members : Worker T M → List String
  alive_members w = alive_ids (all_members w.swim)

  module _ (torch : Tensors T M) where
    -- The barrier of this term: the one at hand, or a fresh one from the worker's own state.
    unfoldable pub barrier_of : (term : ℕ) → Worker T M → RoundBarrier (Dict T) (OuterOptimizer T M)
    unfolding new_barrier new_optimizer
    barrier_of term w = elim w.barrier [
      | none ↦ new_barrier (new_optimizer torch w.global_state) w.global_state w.round
      | some (barrier_term, b) ↦
          if barrier_term == term
          then b
          else new_barrier (new_optimizer torch w.global_state) w.global_state w.round
    ]

    -- `Sync`, up to its wait.
    unfoldable pub sync : {F : Type 0} → Layout T F → SyncRequest F → Worker T M → SyncStart T M
    unfolding barrier_of submit alive_members state_from_pb
    sync layout request w =
        let from = barrier_of w.raft.current_term w in
        if not (is_leader w.raft.role) || not (request.term == w.raft.current_term)
        then refused
        else elim (state_from_pb layout request.pseudo_gradient []) [
          | none ↦ malformed (record w { barrier = some (w.raft.current_term, from) })
          | some gradient ↦
              elim (submit (outer_step torch) (alive_members w) request.worker_id gradient from) [
                | none ↦ fault
                | some (b, woken) ↦
                    joined (record w { barrier = some (w.raft.current_term, b) }) woken
              ]
        ]

    -- What `Sync` answers after its wait.
    unfoldable pub sync_end :
        {F : Type 0} → Layout T F → RoundBarrier (Dict T) (OuterOptimizer T M) → SyncResponse F
    unfolding state_to_pb
    sync_end layout b =
        let (round, state) = submit_end b in
        record { round = round; global_state = state_to_pb layout state }

    -- The pseudo-gradient that `_outer_sync` starts with.
    unfoldable pub own_gradient : Worker T M → Option (Dict T)
    unfolding pseudo_gradient
    own_gradient w = pseudo_gradient torch w.global_state w.model

  -- `_inner_train`; `train` is the training of the model, from the state that it is given.
  unfoldable pub inner_train : (train : Dict T → Dict T) → Worker T M → Worker T M
  inner_train train w = record w { model = train w.global_state }

  module _ {F : Type 0} (layout : Layout T F) where
    -- One round of `_outer_sync`, with the Raft node as it is then, and the leader's answer, `none`
    -- if the call failed.
    unfoldable pub outer_sync_once : Raft → Option (SyncResponse F) → Worker T M → OuterSync T M
    unfolding lookup state_from_pb
    outer_sync_once raft answer w = elim (lookup raft.leader_id w.peer_addrs) [
      | none ↦ again
      | some addr ↦ if str_eq addr "" then again else elim answer [
        | none ↦ again
        | some resp ↦ elim (state_from_pb layout resp.global_state []) [
          | none ↦ raised
          | some state ↦ done (record w { global_state = state; round = resp.round })
        ]
      ]
    ]

    -- The loop, over the rounds as they come.
    unfoldable pub outer_sync : List (Raft × Option (SyncResponse F)) → Worker T M → OuterSync T M
    unfolding outer_sync_once
    outer_sync [] w = again
    outer_sync ((raft, answer) ∷ rounds) w = elim (outer_sync_once raft answer w) [
      | again ↦ outer_sync rounds w
      | raised ↦ raised
      | done w' ↦ done w'
    ]
