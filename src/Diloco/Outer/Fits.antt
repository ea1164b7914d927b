-- ===== src/Diloco/Outer/Fits.antt =====
-- diloco/outer.py: on states with the model's keys and shapes the outer step succeeds, and what it
-- yields has them too.
use dssd.Prelude.{
  ◌≡◌, refl, sym, ap, subst, ◌∙◌, inl, inr, String, true, some, List, [], ◌∷◌, Dict, lookup, keys,
  contains, str_eq, str_eq→eq, arith, some_inj, Bool-cases, Option-cases, eq_refl,
}
use dssd.Diloco.Barrier.Rounds.{AllOf, IsOuterStep}
use dssd.Diloco.Outer.{
  Tensors, OuterOptimizer, column, mean_of_keys, average_pseudo_gradients, with_grads,
  replace_values, optimizer_step, outer_step,
}

module _ {T : Type 0} (HasShape : String → T → Type 0) where
  -- A value of the right shape stands under this key.
  abbrev pub HasKey : String → Dict T → Type 0
  HasKey k d = (t : T) × (lookup k d ≡ some t) × HasShape k t

  -- A state of the model with these keys, in the model's order.
  pub record FitsModel (ks : List String) (d : Dict T) : Type 0 where
    pub named : keys d ≡ ks
    pub shaped : (k : String) → contains ks k ≡ true → HasKey k d

  HasKey-cons :
      (j k : String) (m : T) (js : List String) (d : Dict T)
      → HasShape j m
      → (contains js k ≡ true → HasKey k d)
      → contains (j ∷ js) k ≡ true
      → HasKey k ((j, m) ∷ d)
  unfolding lookup
  HasKey-cons j k m js d shape later h = elim (Bool-cases (str_eq j k)) [
    | inl here ↦ (m, rw here refl, subst (λ s. HasShape s m) (str_eq→eq j k here) shape)
    | inr other ↦
        let (t, found, fits) = later (ground (arith, h, other)) in (t, rw other found, fits)
  ]

  -- Each new parameter has the shape of the old one.
  abbrev pub SameShapes : List (T × T) → List T → Type 0
  SameShapes [] [] = Unit
  SameShapes ((p, g) ∷ pairs) (t ∷ ts) =
      ((k : String) → HasShape k p → HasShape k t) × SameShapes pairs ts
  SameShapes [] (t ∷ ts) = ⊥
  SameShapes ((p, g) ∷ pairs) [] = ⊥

  -- What putting new values in the place of the old ones keeps.
  abbrev Keeps : Dict T → List T → Type 0
  Keeps d ts =
      (keys (replace_values d ts) ≡ keys d)
      × ((k : String) → HasKey k d → HasKey k (replace_values d ts))

  replace_values-cons :
      (j : String) (p g : T) (params : Dict T) (rest : List (T × T)) (ts : List T)
      → ((us : List T) → SameShapes rest us → Keeps params us)
      → SameShapes ((p, g) ∷ rest) ts
      → Keeps ((j, p) ∷ params) ts
  unfolding replace_values lookup
  replace_values-cons j p g params rest [] ih v = absurd v
  replace_values-cons j p g params rest (t ∷ ts) ih (same, vs) =
      let (named, keep) = ih ts vs in
      (
        ap (◌∷◌ j) named,
        λ k h. elim (Bool-cases (str_eq j k)) [
          | inl here ↦
              let old = some_inj (rw here at h.1) in
              (t, rw here refl, same k (subst (HasShape k) (sym old) h.2))
          | inr other ↦
              let (x, found, shape) = keep k (h.0, rw other at h.1, h.2) in
              (x, rw other found, shape)
        ],
      )

module _ {T M : Type 0} (HasShape : String → T → Type 0) where
  abbrev pub FitsOptimizer : List String → OuterOptimizer T M → Type 0
  FitsOptimizer ks o = FitsModel HasShape ks o.params

  -- The mean of tensors of one shape has this shape, and SGD keeps every parameter's.
  pub record IsTensors (torch : Tensors T M) : Type 0 where
    pub means :
        (k : String) (t : T) (ts : List T)
        → HasShape k t
        → AllOf (HasShape k) ts
        → (m : T) × (torch.mean (t ∷ ts) ≡ some m) × HasShape k m
    pub steps :
        (m : M) (pairs : List (T × T)) → SameShapes HasShape pairs (torch.sgd_step m pairs).1

  module _ (torch : Tensors T M) (spec : IsTensors torch) (ks : List String) where
    column-total :
        (k : String) (gs : List (Dict T))
        → contains ks k ≡ true
        → AllOf (FitsModel HasShape ks) gs
        → (ts : List T) × (column torch k gs ≡ some ts) × AllOf (HasShape k) ts
    unfolding column
    column-total k [] h v = ([], refl, tt)
    column-total k (g ∷ gs) h (v, vs) =
        let (t, found, shape) = v.shaped k h in
        let (ts, rest, shapes) = column-total k gs h vs in
        (t ∷ ts, ground (arith, found, rest), (shape, shapes))

    column-mean :
        (k : String) (g : Dict T) (gs : List (Dict T))
        → contains ks k ≡ true
        → FitsModel HasShape ks g
        → AllOf (FitsModel HasShape ks) gs
        → (ts : List T) × (m : T) × (column torch k (g ∷ gs) ≡ some ts)
          × (torch.mean ts ≡ some m)
          × HasShape k m
    unfolding column
    column-mean k g gs h v vs =
        let (t, found, shape) = v.shaped k h in
        let (ts, rest, shapes) = column-total k gs h vs in
        let (m, mean, fits) = spec.means k t ts shape shapes in
        (t ∷ ts, m, ground (arith, found, rest), mean, fits)

    -- The keys `js` are some of the model's.
    mean_of_keys-total :
        (js : List String) (g : Dict T) (gs : List (Dict T))
        → ((k : String) → contains js k ≡ true → contains ks k ≡ true)
        → FitsModel HasShape ks g
        → AllOf (FitsModel HasShape ks) gs
        → (d : Dict T) × (mean_of_keys torch js (g ∷ gs) ≡ some d) × FitsModel HasShape js d
    unfolding mean_of_keys
    mean_of_keys-total [] g gs sub v vs = ([], refl, record { named = refl; shaped = λ k h. cc })
    mean_of_keys-total (j ∷ js) g gs sub v vs =
        let (ts, m, gathered, mean, fits) =
          column-mean j g gs (sub j (ground (arith, eq_refl j))) v vs in
        let (d, rest, w) = mean_of_keys-total js g gs (λ k h. sub k (ground (arith, h))) v vs in
        (
          (j, m) ∷ d,
          rw (gathered, mean_of_keys) (rw (mean, rest) refl),
          record {
            named = ap (◌∷◌ j) w.named;
            shaped = λ k. HasKey-cons HasShape j k m js d fits (w.shaped k);
          },
        )

    average-FitsModel :
        (g : Dict T) (gs : List (Dict T))
        → FitsModel HasShape ks g
        → AllOf (FitsModel HasShape ks) gs
        → (mean : Dict T) × (average_pseudo_gradients torch (g ∷ gs) ≡ some mean)
          × FitsModel HasShape ks mean
    unfolding average_pseudo_gradients
    average-FitsModel g gs v vs =
        let (d, made, w) =
          mean_of_keys-total (keys g) g gs (λ k h. subst (λ l. contains l k ≡ true) v.named h) v
            vs in
        (d, made, subst (λ l. FitsModel HasShape l d) v.named w)

    with_grads-total :
        (params avg : Dict T)
        → ((k : String) → contains (keys params) k ≡ true → HasKey HasShape k avg)
        → (pairs : List (T × T)) × (with_grads torch params avg ≡ some pairs)
    unfolding with_grads
    with_grads-total [] avg h = ([], refl)
    with_grads-total ((j, p) ∷ params) avg h =
        let (g, found, _) = h j (ground (arith, eq_refl j)) in
        let (pairs, rest) = with_grads-total params avg (λ k i. h k (ground (arith, i))) in
        ((p, g) ∷ pairs, ground (arith, found, rest))

    with_grads-cons :
        (j : String) (p : T) (params avg : Dict T) (g : T) (rest : List (T × T))
        → lookup j avg ≡ some g
        → with_grads torch params avg ≡ some rest
        → with_grads torch ((j, p) ∷ params) avg ≡ some ((p, g) ∷ rest)
    unfolding with_grads
    with_grads-cons j p params avg g rest found made = ground (arith, found, made)

    replace_values-FitsModel :
        (params avg : Dict T) (pairs : List (T × T)) (ts : List T)
        → with_grads torch params avg ≡ some pairs
        → SameShapes HasShape pairs ts
        → Keeps HasShape params ts
    unfolding with_grads
    replace_values-FitsModel [] avg pairs ts e v =
        (unfold replace_values in refl, λ k h. unfold replace_values in h)
    replace_values-FitsModel ((j, p) ∷ params) avg pairs ts e v =
        elim (Option-cases (lookup j avg)) [
          | inl lost ↦ ground (arith, e, lost)
          | inr (g, found) ↦ elim (Option-cases (with_grads torch params avg)) [
            | inl lost ↦ ground (arith, e, found, lost)
            | inr (rest, made) ↦
                replace_values-cons HasShape j p g params rest ts
                  (λ us w. replace_values-FitsModel params avg rest us made w)
                  (subst (λ l. SameShapes HasShape l ts)
                    (some_inj (sym e ∙ with_grads-cons j p params avg g rest found made)) v)
          ]
        ]

    optimizer_step-Fits :
        (o : OuterOptimizer T M) (avg : Dict T)
        → FitsOptimizer ks o
        → FitsModel HasShape ks avg
        → (o' : OuterOptimizer T M) × (s : Dict T) × (optimizer_step torch o avg ≡ some (o', s))
          × FitsOptimizer ks o'
          × FitsModel HasShape ks s
    unfolding optimizer_step
    optimizer_step-Fits o avg v w =
        let (pairs, made) =
          with_grads-total o.params avg
            (λ k h. w.shaped k (subst (λ l. contains l k ≡ true) v.named h)) in
        let ts = (torch.sgd_step o.optim pairs).1 in
        let (named, keep) =
          replace_values-FitsModel o.params avg pairs ts made (spec.steps o.optim pairs) in
        let fits : FitsModel HasShape ks (replace_values o.params ts) = record {
          named = named ∙ v.named;
          shaped = λ k h. keep k (v.shaped k h);
        } in
        (
          record { params = replace_values o.params ts; optim = (torch.sgd_step o.optim pairs).0 },
          replace_values o.params ts,
          rw (made, optimizer_step) refl,
          fits,
          fits,
        )

    -- With tensors whose mean succeeds on tensors of one shape and keeps it, and an SGD that
    -- keeps the shape of each parameter, the outer step is what the barrier asks for: on states
    -- with the model's keys and shapes averaging and stepping succeed, and yield such states and
    -- such an optimizer.
    pub outer_step-IsOuterStep :
        IsOuterStep (outer_step torch) (FitsModel HasShape ks) (FitsOptimizer ks)
    outer_step-IsOuterStep = record { averages = average-FitsModel; steps = optimizer_step-Fits }
