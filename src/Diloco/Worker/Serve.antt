-- ===== src/Diloco/Worker/Serve.antt =====
-- diloco/worker.py: whom the leader serves, with which barrier, and how a state travels.
use dssd.Prelude.{
  ℕ, ◌≡◌, ◌≢◌, refl, subst, ◌⊎◌, inl, inr, String, true, ◌&&◌, Option, none, some, List, [], ◌==◌,
  Dict, Bool-cases, Option-cases, if◌then◌else◌, arith,
}
use dssd.Raft.State.{is_leader}
use dssd.Diloco.Barrier.{RoundBarrier, new_barrier, submit}
use dssd.Diloco.Barrier.Rounds.{IsBarrier, new_barrier-IsBarrier, submit-Submits}
use dssd.Diloco.Outer.{Tensors, OuterOptimizer, new_optimizer, outer_step}
use dssd.Diloco.Outer.Fits.{FitsModel, FitsOptimizer, IsTensors, outer_step-IsOuterStep}
use dssd.Diloco.Worker.{
  Layout, state_from_pb, SyncRequest, Worker, refused, malformed, joined, alive_members, barrier_of,
  sync,
}

module _ {T M : Type 0} (HasShape : String → T → Type 0) (torch : Tensors T M)
    (spec : IsTensors HasShape torch) (ks : List String) where
  -- A barrier that is as it should be, over states of the model.
  abbrev pub IsRound : RoundBarrier (Dict T) (OuterOptimizer T M) → Type 0
  IsRound b = IsBarrier (FitsModel HasShape ks) (FitsOptimizer HasShape ks) b

  abbrev pub IsRoundOption : Option (ℕ × RoundBarrier (Dict T) (OuterOptimizer T M)) → Type 0
  IsRoundOption none = Unit
  IsRoundOption (some (term, b)) = IsRound b

  pub record IsWorker (w : Worker T M) : Type 0 where
    pub state : FitsModel HasShape ks w.global_state
    pub barrier : IsRoundOption w.barrier

  fresh-IsRound :
      (w : Worker T M)
      → FitsModel HasShape ks w.global_state
      → IsRound (new_barrier (new_optimizer torch w.global_state) w.global_state w.round)
  unfolding new_optimizer
  fresh-IsRound w v =
      new_barrier-IsBarrier (FitsModel HasShape ks) (FitsOptimizer HasShape ks)
        (new_optimizer torch w.global_state) w.global_state w.round v v

  -- `from` is the barrier of this term: the worker's own if it has one of this term, and a fresh
  -- one from its state and its round if it has none, or one of another term.
  abbrev pub IsBarrierOf :
      (term : ℕ) → Worker T M → RoundBarrier (Dict T) (OuterOptimizer T M) → Type 0
  IsBarrierOf term w from =
      (w.barrier ≡ some (term, from))
      ⊎ (((b : RoundBarrier (Dict T) (OuterOptimizer T M)) → w.barrier ≢ some (term, b))
          × (from ≡ new_barrier (new_optimizer torch w.global_state) w.global_state w.round))

  barrier_of-IsBarrierOf :
      (term : ℕ) (w : Worker T M) → IsBarrierOf term w (barrier_of torch term w)
  unfolding barrier_of
  barrier_of-IsBarrierOf term w = elim (Option-cases w.barrier) [
    | inl e ↦ rw (e, barrier_of) (inr ((λ b h. ground arith), refl))
    | inr ((t, b), e) ↦ elim (Bool-cases (t == term)) [
      | inl same ↦ rw (e, barrier_of) (rw same (inl (ground (arith, same))))
      | inr other ↦ rw (e, barrier_of) (rw other (inr ((λ c h. ground (arith, other, h)), refl)))
    ]
  ]

  IsBarrierOf-IsRound :
      (term : ℕ) (w : Worker T M) (from : RoundBarrier (Dict T) (OuterOptimizer T M))
      → IsWorker w
      → IsBarrierOf term w from
      → IsRound from
  IsBarrierOf-IsRound term w from v (inl e) = subst IsRoundOption e v.barrier
  IsBarrierOf-IsRound term w from v (inr (_, e)) = rw e (fresh-IsRound w v.state)

  module _ {F : Type 0} (layout : Layout T F) where
    -- The pseudo-gradient does not decode: the call fails, with the barrier of the term in place.
    pub record Fails (request : SyncRequest F) (w : Worker T M) : Type 0 where
      pub from : RoundBarrier (Dict T) (OuterOptimizer T M)
      pub current : IsBarrierOf w.raft.current_term w from
      pub returns :
          sync torch layout request w
          ≡ malformed (record w { barrier = some (w.raft.current_term, from) })

    -- It is `gradient`: the call joins the round of this term, and the worker goes on with what
    -- the round has become.
    pub record Joins (gradient : Dict T) (request : SyncRequest F) (w : Worker T M) : Type 0 where
      pub from : RoundBarrier (Dict T) (OuterOptimizer T M)
      pub current : IsBarrierOf w.raft.current_term w from
      pub barrier : RoundBarrier (Dict T) (OuterOptimizer T M)
      pub woken : List String
      pub submitted :
          submit (outer_step torch) (alive_members w) request.worker_id gradient from
          ≡ some (barrier, woken)
      pub returns :
          sync torch layout request w
          ≡ joined (record w { barrier = some (w.raft.current_term, barrier) }) woken
      pub valid : IsWorker (record w { barrier = some (w.raft.current_term, barrier) })

    abbrev pub Answers : Option (Dict T) → SyncRequest F → Worker T M → Type 0
    Answers none request w = Fails request w
    Answers (some gradient) request w = Joins gradient request w

    abbrev pub Serves : SyncRequest F → Worker T M → Type 0
    Serves request w =
        if is_leader w.raft.role && request.term == w.raft.current_term
        then Answers (state_from_pb layout request.pseudo_gradient []) request w
        else sync torch layout request w ≡ refused

    sync-Joins :
        (gradient : Dict T) (request : SyncRequest F) (w : Worker T M)
        → IsWorker w
        → state_from_pb layout request.pseudo_gradient [] ≡ some gradient
        → FitsModel HasShape ks gradient
        → is_leader w.raft.role ≡ true
        → (request.term == w.raft.current_term) ≡ true
        → Joins gradient request w
    sync-Joins gradient request w v e g leads same =
        let current = barrier_of-IsBarrierOf w.raft.current_term w in
        let s =
          submit-Submits (FitsModel HasShape ks) (FitsOptimizer HasShape ks) (outer_step torch)
            (outer_step-IsOuterStep HasShape torch spec ks) (alive_members w) request.worker_id
            gradient (barrier_of torch w.raft.current_term w)
            (IsBarrierOf-IsRound w.raft.current_term w _ v current) g in
        record {
          from = barrier_of torch w.raft.current_term w;
          current = current;
          barrier = s.barrier;
          woken = s.woken;
          submitted = s.returns;
          returns = unfold sync in rw (leads, same, e) (rw (s.returns) refl);
          valid = record { state = v.state; barrier = s.valid };
        }

    sync-Answers :
        (decoded : Option (Dict T)) (request : SyncRequest F) (w : Worker T M)
        → IsWorker w
        → state_from_pb layout request.pseudo_gradient [] ≡ decoded
        → ((g : Dict T) → decoded ≡ some g → FitsModel HasShape ks g)
        → is_leader w.raft.role ≡ true
        → (request.term == w.raft.current_term) ≡ true
        → Answers decoded request w
    sync-Answers none request w v e g leads same = record {
      from = barrier_of torch w.raft.current_term w;
      current = barrier_of-IsBarrierOf w.raft.current_term w;
      returns = unfold sync in rw (leads, same, e) refl;
    }
    sync-Answers (some gradient) request w v e g leads same =
        sync-Joins gradient request w v e (g gradient refl) leads same

    -- With tensors whose mean and outer step succeed on the model's shapes, a worker whose state
    -- and whose barrier, if it has one, fit the model, and a Sync call whose pseudo-gradient fits
    -- the model if it decodes: the call is refused unless the worker leads and the call is for
    -- its term. Otherwise the barrier is the worker's own if it is of this term, and if there is
    -- none or it is of another term, a fresh one from the worker's own state and round. A
    -- pseudo-gradient that does not decode fails the call, with this barrier in place. One that
    -- decodes is submitted to this barrier, which succeeds; nothing of the worker changes but its
    -- barrier, which is what the submission has made of this one, and its state and barrier fit
    -- the model again.
    pub sync-Serves :
        (request : SyncRequest F) (w : Worker T M)
        → IsWorker w
        → ((g : Dict T)
            → state_from_pb layout request.pseudo_gradient [] ≡ some g
            → FitsModel HasShape ks g)
        → Serves request w
    sync-Serves request w v g = elim (Bool-cases (is_leader w.raft.role)) [
      | inr follows ↦ rw follows (unfold sync in rw follows refl)
      | inl leads ↦ elim (Bool-cases (request.term == w.raft.current_term)) [
        | inr other ↦ rw (leads, other) (unfold sync in rw (leads, other) refl)
        | inl same ↦
            rw (leads, same)
              (sync-Answers (state_from_pb layout request.pseudo_gradient []) request w v refl g
                leads same)
      ]
    ]
