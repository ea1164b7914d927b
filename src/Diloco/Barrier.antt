-- ===== src/Diloco/Barrier.antt =====
-- diloco/barrier.py: the leader's round barrier, over what it uses of outer.py: an interface,
-- `OuterStep`, which Diloco/Outer.antt fills.
pub mod Rounds
use dssd.Prelude.{
  ℕ, ◌+◌, String, Bool, true, false, not, ◌&&◌, Option, none, some, List, [], ◌∷◌, ◌++◌,
  if◌then◌else◌, Dict, insert, keys, values, contains,
}

-- `average_pseudo_gradients` and `OuterOptimizer.step`, where `none` is an exception.
pub record OuterStep (S O : Type 0) : Type 0 where
  pub average : List S → Option S
  pub step : O → S → Option (O × S)

-- The object. Each round has an event: `waiting` are those who wait for the present one. Of the
-- task only whether it runs is kept.
pub record RoundBarrier (S O : Type 0) : Type 0 where
  pub outer : O
  pub global_state : S
  pub round : ℕ
  pub pending : Dict S
  pub waiting : List String
  pub timeout_task : Bool

-- `set(alive) <= pending.keys()`
abbrev pub covers : List String → List String → Bool
covers [] present = true
covers (x ∷ alive) present = contains present x && covers alive present

module _ {S O : Type 0} where
  unfoldable pub new_barrier : O → S → (start_round : ℕ) → RoundBarrier S O
  new_barrier outer global_state start_round = record {
    outer = outer;
    global_state = global_state;
    round = start_round;
    pending = [];
    waiting = [];
    timeout_task = false;
  }

  -- What `submit` returns after its wait.
  abbrev pub submit_end : RoundBarrier S O → ℕ × S
  submit_end b = (b.round, b.global_state)

  module _ (outer : OuterStep S O) where
    -- `_finish_round`: the barrier, and those it wakes. `none` is an exception.
    unfoldable pub finish_round : RoundBarrier S O → Option (RoundBarrier S O × List String)
    finish_round b = elim (outer.average (values b.pending)) [
      | none ↦ none
      | some mean ↦ elim (outer.step b.outer mean) [
        | none ↦ none
        | some (optimizer, global_state) ↦ some (
          record b {
            outer = optimizer;
            global_state = global_state;
            round = b.round + 1;
            pending = [];
            waiting = [];
            timeout_task = false;
          },
          b.waiting,
        )
      ]
    ]

    -- `submit` up to the wait, given what `_alive_members()` returns: those it wakes, itself
    -- among them.
    unfoldable pub submit :
        (alive : List String) (worker_id : String) (pseudo_grad : S)
        → RoundBarrier S O
        → Option (RoundBarrier S O × List String)
    submit alive worker_id pseudo_grad b =
        let joined = record b {
          pending = insert worker_id pseudo_grad b.pending;
          waiting = b.waiting ++ worker_id ∷ [];
        } in
        if covers alive (keys joined.pending)
        then finish_round joined
        else some (record joined { timeout_task = true }, [])

    -- `_finish_after_timeout`, from the end of its sleep on.
    unfoldable pub finish_after_timeout : RoundBarrier S O → Option (RoundBarrier S O × List String)
    finish_after_timeout b =
        let rung = record b { timeout_task = false } in
        elim rung.pending [ [] ↦ some (rung, []) | _ ∷ _ ↦ finish_round rung ]
