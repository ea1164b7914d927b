-- ===== src/Diloco/Barrier/Rounds.antt =====
-- diloco/barrier.py: every worker that waits is woken in the end.
use dssd.Prelude.{
  ℕ, ◌+◌, ◌≡◌, ◌≢◌, refl, sym, ap, subst, ◌∙◌, ◌⊎◌, inl, inr, String, true, false, some, List, [],
  ◌∷◌, ◌++◌, Dict, insert, keys, values, str_eq, if◌then◌else◌, arith, Bool-cases,
}
use dssd.Diloco.Barrier.{
  OuterStep, RoundBarrier, new_barrier, covers, finish_round, submit, finish_after_timeout,
}

abbrev pub AllOf : {A : Type 0} → (A → Type 0) → List A → Type 0
AllOf P [] = Unit
AllOf P (x ∷ xs) = P x × AllOf P xs

-- The outer step succeeds on pseudo-gradients that fit the model, and on an optimizer of it, and
-- yields such again.
pub record IsOuterStep {S O : Type 0} (outer : OuterStep S O) (FitsState : S → Type 0)
    (FitsOptimizer : O → Type 0) : Type 0 where
  pub averages :
      (g : S) (gs : List S)
      → FitsState g
      → AllOf FitsState gs
      → (mean : S) × (outer.average (g ∷ gs) ≡ some mean) × FitsState mean
  pub steps :
      (o : O) (mean : S)
      → FitsOptimizer o
      → FitsState mean
      → (o' : O) × (s : S) × (outer.step o mean ≡ some (o', s)) × FitsOptimizer o' × FitsState s

insert-ne-nil : {S : Type 0} (k : String) (g : S) (d : Dict S) → insert k g d ≢ []
unfolding insert
insert-ne-nil k g [] e = ground (arith, e)
insert-ne-nil k g ((j, h) ∷ d) e = elim (Bool-cases (str_eq j k)) [
  | inl here ↦ ground (arith, e, here)
  | inr other ↦ ground (arith, e, other)
]

values-cons : {S : Type 0} (d : Dict S) → d ≢ [] → (g : S) × (gs : List S) × (values d ≡ g ∷ gs)
values-cons [] h = absurd (h refl)
values-cons ((j, g) ∷ d) h = (g, values d, refl)

cons-ne-nil : {A : Type 0} {x : A} {xs : List A} → x ∷ xs ≢ []
cons-ne-nil e = ground (arith, e)

List-cases : {A : Type 0} (xs : List A) → (xs ≡ []) ⊎ ((x : A) × (ys : List A) × (xs ≡ x ∷ ys))
List-cases [] = inl refl
List-cases (x ∷ ys) = inr (x, ys, refl)

values-insert-AllOf :
    {S : Type 0} (P : S → Type 0) (k : String) (g : S) (d : Dict S)
    → P g
    → AllOf P (values d)
    → AllOf P (values (insert k g d))
unfolding insert
values-insert-AllOf P k g [] p h = (p, tt)
values-insert-AllOf P k g ((j, x) ∷ d) p (q, h) = elim (Bool-cases (str_eq j k)) [
  | inl here ↦ rw here (p, h)
  | inr other ↦ rw other (q, values-insert-AllOf P k g d p h)
]

module _ {S O : Type 0} (FitsState : S → Type 0) (FitsOptimizer : O → Type 0) where
  -- Whoever waits has submitted, and the timer runs; all that is held fits the model.
  pub record IsBarrier (b : RoundBarrier S O) : Type 0 where
    pub timed : b.waiting ≢ [] → b.timeout_task ≡ true
    pub submitted : b.waiting ≢ [] → b.pending ≢ []
    pub optimizer : FitsOptimizer b.outer
    pub state : FitsState b.global_state
    pub gradients : AllOf FitsState (values b.pending)

  pub new_barrier-IsBarrier :
      (o : O) (g : S) (n : ℕ) → FitsOptimizer o → FitsState g → IsBarrier (new_barrier o g n)
  unfolding new_barrier
  new_barrier-IsBarrier o g n fo fg = record {
    timed = λ h. absurd (h refl);
    submitted = λ h. absurd (h refl);
    optimizer = fo;
    state = fg;
    gradients = tt;
  }

  module _ (outer : OuterStep S O) (spec : IsOuterStep outer FitsState FitsOptimizer) where
    -- The round is over: one round on, nobody waits, and all who waited, `woken`, are awake.
    pub record Closed (b c : RoundBarrier S O) (woken wanted : List String) : Type 0 where
      pub round : c.round ≡ b.round + 1
      pub empty : c.pending ≡ []
      pub nobody : c.waiting ≡ []
      pub timer : c.timeout_task ≡ false
      pub all : woken ≡ wanted

    -- A state that fits is left: the new optimizer's and the new global state.
    pub record Fits (c : RoundBarrier S O) : Type 0 where
      pub optimizer : FitsOptimizer c.outer
      pub state : FitsState c.global_state

    finish_round-Closed :
        (b : RoundBarrier S O)
        → b.pending ≢ []
        → FitsOptimizer b.outer
        → AllOf FitsState (values b.pending)
        → (c : RoundBarrier S O) × (woken : List String) × (finish_round outer b ≡ some (c, woken))
          × Closed b c woken b.waiting
          × Fits c
    unfolding finish_round
    finish_round-Closed b h fo fg =
        let (g, gs, e) = values-cons b.pending h in
        let (first, rest) = subst (AllOf FitsState) e fg in
        let (mean, found, fits) = spec.averages g gs first rest in
        let (o, s, stepped, fo', fs) = spec.steps b.outer mean fo fits in
        (
          _,
          b.waiting,
          rw (ap outer.average e ∙ found, finish_round) (rw stepped refl),
          record { round = refl; empty = refl; nobody = refl; timer = refl; all = refl },
          record { optimizer = fo'; state = fs },
        )

    Closed-IsBarrier :
        (b c : RoundBarrier S O) (woken wanted : List String)
        → Closed b c woken wanted
        → Fits c
        → IsBarrier c
    Closed-IsBarrier b c woken wanted v w = record {
      timed = λ h. absurd (h v.nobody);
      submitted = λ h. absurd (h v.nobody);
      optimizer = w.optimizer;
      state = w.state;
      gradients = rw (v.empty) tt;
    }

    -- The round goes on: the timer runs, and the workers in `wanted` wait.
    pub record Waits (b c : RoundBarrier S O) (woken wanted : List String) : Type 0 where
      pub round : c.round ≡ b.round
      pub timer : c.timeout_task ≡ true
      pub none_woken : woken ≡ []
      pub waiting : c.waiting ≡ wanted

    abbrev joined : (worker_id : String) (grad : S) → RoundBarrier S O → RoundBarrier S O
    joined worker_id grad b = record b {
      pending = insert worker_id grad b.pending;
      waiting = b.waiting ++ worker_id ∷ [];
    }

    -- Both outcomes of a submission.
    pub record Submits (alive : List String) (worker_id : String) (grad : S) (b : RoundBarrier S O)
        : Type 0 where
      pub barrier : RoundBarrier S O
      pub woken : List String
      pub returns : submit outer alive worker_id grad b ≡ some (barrier, woken)
      pub valid : IsBarrier barrier
      pub outcome :
          if covers alive (keys (insert worker_id grad b.pending))
          then Closed b barrier woken (b.waiting ++ worker_id ∷ [])
          else Waits b barrier woken (b.waiting ++ worker_id ∷ [])

    -- Let averaging succeed on any pseudo-gradients that fit, one at least, and yield one that
    -- fits, and let a step succeed with a mean and an optimizer that fit, and yield an optimizer
    -- and a state that fit. Let the barrier's optimizer, state and pending pseudo-gradients fit,
    -- and whoever waits in it have something pending and a running timer. Then the submission of
    -- a pseudo-gradient that fits never fails. If every alive worker has then submitted, the
    -- round closes: the number goes up by one, nothing is pending, the timer is off, and exactly
    -- those who waited and the submitter are woken. Otherwise nobody is woken, the submitter
    -- waits behind the others and the timer runs. In both cases the barrier is again as was asked
    -- of it.
    pub submit-Submits :
        (alive : List String) (worker_id : String) (grad : S) (b : RoundBarrier S O)
        → IsBarrier b
        → FitsState grad
        → Submits alive worker_id grad b
    unfolding submit
    submit-Submits alive worker_id grad b w fg =
        let fits = values-insert-AllOf FitsState worker_id grad b.pending fg w.gradients in
        elim (Bool-cases (covers alive (keys (insert worker_id grad b.pending)))) [
          | inl full ↦
              let (c, woken, e, v, fit) =
                finish_round-Closed (joined worker_id grad b)
                  (insert-ne-nil worker_id grad b.pending) w.optimizer fits in
              record {
                barrier = c;
                woken = woken;
                returns = rw (full, submit) e;
                valid = Closed-IsBarrier (joined worker_id grad b) c woken _ v fit;
                outcome = rw full record {
                  round = v.round;
                  empty = v.empty;
                  nobody = v.nobody;
                  timer = v.timer;
                  all = v.all;
                };
              }
          | inr waits ↦ record {
            barrier = record (joined worker_id grad b) { timeout_task = true };
            woken = [];
            returns = rw (waits, submit) refl;
            valid = record {
              timed = λ _. refl;
              submitted = λ _. insert-ne-nil worker_id grad b.pending;
              optimizer = w.optimizer;
              state = w.state;
              gradients = fits;
            };
            outcome =
                rw waits record { round = refl; timer = refl; none_woken = refl; waiting = refl };
          }
        ]

    ring_early :
        (b : RoundBarrier S O)
        → b.pending ≡ []
        → finish_after_timeout outer b ≡ some (record b { timeout_task = false }, [])
    unfolding finish_after_timeout
    ring_early b h = ground (arith, h)

    -- The end of the sleep wakes all who wait.
    pub record Rings (b : RoundBarrier S O) : Type 0 where
      pub barrier : RoundBarrier S O
      pub returns : finish_after_timeout outer b ≡ some (barrier, b.waiting)
      pub valid : IsBarrier barrier
      pub nobody : barrier.waiting ≡ []

    -- Let averaging succeed on any pseudo-gradients that fit, one at least, and yield one that
    -- fits, and let a step succeed with a mean and an optimizer that fit, and yield an optimizer
    -- and a state that fit. Let the barrier's optimizer, state and pending pseudo-gradients fit,
    -- and whoever waits in it have something pending and a running timer. Then the end of the
    -- timer wakes exactly those who waited, nobody waits afterwards, and the barrier is again as
    -- was asked of it.
    pub finish_after_timeout-Rings : (b : RoundBarrier S O) → IsBarrier b → Rings b
    unfolding finish_after_timeout
    finish_after_timeout-Rings b v = elim (List-cases b.pending) [
      | inr (p, ps, e) ↦
          let (c, woken, made, w, fit) =
            finish_round-Closed (record b { timeout_task = false })
              (λ f. absurd (cons-ne-nil (sym e ∙ f))) v.optimizer v.gradients in
          record {
            barrier = c;
            returns = rw (e, finish_after_timeout) (made ∙ ap (λ l. some (c, l)) w.all);
            valid = Closed-IsBarrier (record b { timeout_task = false }) c woken _ w fit;
            nobody = w.nobody;
          }
      | inl e ↦ elim (List-cases b.waiting) [
        | inr (x, xs, f) ↦ absurd (v.submitted (λ g. absurd (cons-ne-nil (sym f ∙ g))) e)
        | inl f ↦ record {
          barrier = record b { timeout_task = false };
          returns = ring_early b e ∙ ap (λ l. some (record b { timeout_task = false }, l)) (sym f);
          valid = record {
            timed = λ h. absurd (h f);
            submitted = λ h. absurd (h f);
            optimizer = v.optimizer;
            state = v.state;
            gradients = v.gradients;
          };
          nobody = f;
        }
      ]
    ]
