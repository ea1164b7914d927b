-- ===== src/Checks/Training.antt =====
-- diloco: numbers for tensors, of which only those below 100 fit; the mean is the first one, and
-- the optimizer subtracts the gradients.
use dssd.Prelude.{
  ℕ, refl, ◌-◌, ◌<◌, String, true, none, some, List, [], ◌∷◌, Dict, arith, lookup, insert, subst,
  some_inj,
}
use dssd.Raft.State.{init, leader}
use dssd.Swim.Gossip.{fresh}
use dssd.Diloco.Barrier.{RoundBarrier}
use dssd.Diloco.Barrier.Rounds.{
  IsOuterStep, IsBarrier, Submits, submit-Submits, Rings, finish_after_timeout-Rings,
}
use dssd.Diloco.Outer.{Tensors, OuterOptimizer, outer_step}
use dssd.Diloco.Outer.Fits.{FitsModel, FitsOptimizer, IsTensors, SameShapes, outer_step-IsOuterStep}
use dssd.Diloco.Worker.{Layout, state_from_pb, SyncRequest, Worker}
use dssd.Diloco.Worker.Serve.{Serves, sync-Serves}

abbrev descend : List (ℕ × ℕ) → List ℕ
descend [] = []
descend ((p, g) ∷ pairs) = (p - g) ∷ descend pairs

abbrev numbers : Tensors ℕ ℕ
numbers = record {
  sub = λ a b. some (a - b);
  mean = λ l. elim l [ [] ↦ none | t ∷ _ ↦ some t ];
  sgd_init = λ l. 0;
  sgd_step = λ m pairs. (m, descend pairs);
}

abbrev Small : String → ℕ → Type 0
Small k n = n < 100

descend-SameShapes : (pairs : List (ℕ × ℕ)) → SameShapes Small pairs (descend pairs)
descend-SameShapes [] = tt
descend-SameShapes ((p, g) ∷ pairs) = ((λ k h. omega arith), descend-SameShapes pairs)

numbers-IsTensors : IsTensors Small numbers
numbers-IsTensors = record {
  means = λ k t ts h hs. (t, refl, h);
  steps = λ m pairs. descend-SameShapes pairs;
}

abbrev keys : List String
keys = "w" ∷ []

outer_step-IsOuterStep_example :
    IsOuterStep (outer_step numbers) (FitsModel Small keys) (FitsOptimizer Small keys)
outer_step-IsOuterStep_example = outer_step-IsOuterStep Small numbers numbers-IsTensors keys

one-FitsModel : (n : ℕ) → n < 100 → FitsModel Small keys (("w", n) ∷ [])
unfolding lookup
one-FitsModel n h = record { named = refl; shaped = λ k i. (n, ground (arith, i), h) }

-- `a` has submitted and waits.
abbrev half : RoundBarrier (Dict ℕ) (OuterOptimizer ℕ ℕ)
half = record {
  outer = record { params = ("w", 10) ∷ []; optim = 0 };
  global_state = ("w", 10) ∷ [];
  round = 0;
  pending = ("a", ("w", 3) ∷ []) ∷ [];
  waiting = "a" ∷ [];
  timeout_task = true;
}

half-IsBarrier : IsBarrier (FitsModel Small keys) (FitsOptimizer Small keys) half
half-IsBarrier = record {
  timed = λ h. refl;
  submitted = λ h e. ground (arith, e);
  optimizer = one-FitsModel 10 (omega arith);
  state = one-FitsModel 10 (omega arith);
  gradients = (one-FitsModel 3 (omega arith), tt);
}

submit-Submits_example :
    Submits
      (FitsModel Small keys)
      (FitsOptimizer Small keys)
      (outer_step numbers)
      (outer_step-IsOuterStep Small numbers numbers-IsTensors keys)
      ("a" ∷ "b" ∷ [])
      "b"
      (("w", 4) ∷ [])
      half
submit-Submits_example =
    submit-Submits (FitsModel Small keys) (FitsOptimizer Small keys) (outer_step numbers)
      (outer_step-IsOuterStep Small numbers numbers-IsTensors keys) ("a" ∷ "b" ∷ []) "b"
      (("w", 4) ∷ []) half half-IsBarrier (one-FitsModel 4 (omega arith))

finish_after_timeout-Rings_example :
    Rings
      (FitsModel Small keys)
      (FitsOptimizer Small keys)
      (outer_step numbers)
      (outer_step-IsOuterStep Small numbers numbers-IsTensors keys)
      half
finish_after_timeout-Rings_example =
    finish_after_timeout-Rings (FitsModel Small keys) (FitsOptimizer Small keys)
      (outer_step numbers) (outer_step-IsOuterStep Small numbers numbers-IsTensors keys) half
      half-IsBarrier

abbrev chief : Worker ℕ ℕ
chief = record {
  id = "a";
  swim = fresh "a" "a:1";
  raft =
      record (init (record { id = "a"; peers = "b" ∷ []; group = ""; heartbeat_interval = 5 }) 20) {
        current_term = 2;
        role = leader;
      };
  peer_addrs = ("a", "a:2") ∷ ("b", "b:2") ∷ [];
  model = ("w", 7) ∷ [];
  global_state = ("w", 10) ∷ [];
  round = 4;
  barrier = some (1, half);
}

abbrev request : SyncRequest ℕ
request = record {
  worker_id = "b";
  term = 2;
  pseudo_gradient = record { key = "w"; shape = []; values = 3 ∷ [] } ∷ [];
}

abbrev scalar : Layout ℕ ℕ
scalar = record {
  shape = λ t. [];
  flatten = λ t. t ∷ [];
  reshape = λ l s. elim l [ [] ↦ none | t ∷ _ ↦ some t ];
}

-- The barrier is of term 1: a fresh one takes its place.
sync-Serves_example : Serves Small numbers numbers-IsTensors keys scalar request chief
unfolding state_from_pb insert
sync-Serves_example =
    sync-Serves Small numbers numbers-IsTensors keys scalar request chief
      (record { state = one-FitsModel 10 (omega arith); barrier = half-IsBarrier })
      (λ g e. subst (FitsModel Small keys) (some_inj e) (one-FitsModel 3 (omega arith)))
