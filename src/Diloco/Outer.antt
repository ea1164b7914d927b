-- ===== src/Diloco/Outer.antt =====
-- diloco/outer.py: pseudo-gradients, their mean and the outer optimizer. Tensors belong to torch:
-- an interface, `Tensors`, whose `none` is an exception.
pub mod Fits
use dssd.Prelude.{ℕ, String, Option, none, some, List, [], ◌∷◌, Dict, lookup, keys, values}
use dssd.Diloco.Barrier.{OuterStep}

-- `a - b`, `torch.stack(ts).mean(dim=0)`, and SGD with its own state: a step over the parameters
-- with their gradients returns the new parameters in the same order.
pub record Tensors (T M : Type 0) : Type 0 where
  pub sub : T → T → Option T
  pub mean : List T → Option T
  pub sgd_init : List T → M
  pub sgd_step : M → List (T × T) → M × List T

pub record OuterOptimizer (T M : Type 0) : Type 0 where
  pub params : Dict T
  pub optim : M

-- The dict with these values in the place of its own.
unfoldable pub replace_values : {T : Type 0} → Dict T → List T → Dict T
replace_values [] ts = []
replace_values ((k, p) ∷ d) [] = (k, p) ∷ d
replace_values ((k, p) ∷ d) (t ∷ ts) = (k, t) ∷ replace_values d ts

module _ {T M : Type 0} (torch : Tensors T M) where
  -- `pseudo_gradient`: over the keys of the global state.
  unfoldable pub pseudo_gradient : (global_state worker_state : Dict T) → Option (Dict T)
  unfolding lookup
  pseudo_gradient [] worker_state = some []
  pseudo_gradient ((k, t) ∷ global_state) worker_state =
      let rest = pseudo_gradient global_state worker_state in
      elim (lookup k worker_state) [
        | none ↦ none
        | some w ↦ elim (torch.sub t w) [
          | none ↦ none
          | some d ↦ elim rest [ none ↦ none | some ds ↦ some ((k, d) ∷ ds) ]
        ]
      ]

  -- `[g[k] for g in grads]`; `none` is a KeyError.
  unfoldable pub column : String → List (Dict T) → Option (List T)
  unfolding lookup
  column k [] = some []
  column k (g ∷ gs) =
      let rest = column k gs in
      elim (lookup k g) [
        | none ↦ none
        | some t ↦ elim rest [ none ↦ none | some ts ↦ some (t ∷ ts) ]
      ]

  -- `{k: torch.stack(…).mean(dim=0) for k in keys}`
  unfoldable pub mean_of_keys : List String → List (Dict T) → Option (Dict T)
  unfolding column
  mean_of_keys [] gs = some []
  mean_of_keys (k ∷ ks) gs =
      let rest = mean_of_keys ks gs in
      elim (column k gs) [
        | none ↦ none
        | some ts ↦ elim (torch.mean ts) [
          | none ↦ none
          | some m ↦ elim rest [ none ↦ none | some d ↦ some ((k, m) ∷ d) ]
        ]
      ]

  -- `average_pseudo_gradients`; of no pseudo-gradient it is a ValueError.
  unfoldable pub average_pseudo_gradients : List (Dict T) → Option (Dict T)
  unfolding mean_of_keys
  average_pseudo_gradients [] = none
  average_pseudo_gradients (g ∷ gs) = mean_of_keys (keys g) (g ∷ gs)

  -- `OuterOptimizer.__init__`; the clones are the values themselves.
  unfoldable pub new_optimizer : Dict T → OuterOptimizer T M
  new_optimizer global_state = record {
    params = global_state;
    optim = torch.sgd_init (values global_state);
  }

  -- The loop that hands each parameter its gradient.
  unfoldable pub with_grads : Dict T → Dict T → Option (List (T × T))
  unfolding lookup
  with_grads [] avg = some []
  with_grads ((k, p) ∷ params) avg =
      let rest = with_grads params avg in
      elim (lookup k avg) [
        | none ↦ none
        | some g ↦ elim rest [ none ↦ none | some pairs ↦ some ((p, g) ∷ pairs) ]
      ]

  -- `OuterOptimizer.step`: the optimizer and the new global state, a copy of its parameters.
  unfoldable pub optimizer_step : OuterOptimizer T M → Dict T → Option (OuterOptimizer T M × Dict T)
  unfolding with_grads replace_values
  optimizer_step o avg = elim (with_grads o.params avg) [
    | none ↦ none
    | some pairs ↦
        let (optim, ts) = torch.sgd_step o.optim pairs in
        let params = replace_values o.params ts in
        some (record { params = params; optim = optim }, params)
  ]

  -- What the barrier uses.
  abbrev pub outer_step : OuterStep (Dict T) (OuterOptimizer T M)
  outer_step = record { average = average_pseudo_gradients; step = optimizer_step }
