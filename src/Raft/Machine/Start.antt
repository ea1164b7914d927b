-- ===== src/Raft/Machine/Start.antt =====
-- The invariant of a machine that has just been made.
use mathlib.Core.List.{Permᴰ}
use mathlib.Core.List.Memᴰ
use dssd.Prelude.{
  ℕ, zero, suc, ◌-◌, ◌<◌, ◌≡◌, refl, sym, ap, subst, inl, inr, String, Bool, true, some, some_inj,
  List, [], ◌∷◌, length, count, contains, get_elem?, Bool-cases, ltb, ◌==◌, if◌then◌else◌, arith,
}
use dssd.Raft.State.{Config, LogEntry, init, sentinel}
use dssd.Raft.Log.{has_term}
use dssd.Raft.Cluster.{initial}
use dssd.Raft.Cluster.Safety.{IsConfigured, Inv-initial}
use dssd.Raft.Group.{new_group}
use dssd.Raft.Group.Lead.{eq_of_test}
use dssd.Raft.Group.Safety.{first_history, Logged-new_group}
use dssd.Raft.Machine.{new_machine}
use dssd.Raft.Machine.Order.{Has, Ordered}
use dssd.Raft.Machine.Kept.{Acks}
use dssd.Raft.Machine.Sound.{Sound}
use dssd.Raft.Machine.Committed.{Commits, HasCommits}

-- Each member's name and its peers are all the members, each once.
unfoldable pub IsGroup : List String → (String → Config) → Type 0
IsGroup members configs =
    (i : String) → contains members i ≡ true → Permᴰ ((configs i).id ∷ (configs i).peers) members

-- Everybody has acknowledged the sentinel.
abbrev first_acks : Acks
first_acks v t = if t == 0 then 1 else 0

first-Has : (t n a : ℕ) → Has (first_history t) n a → (t ≡ 0) × (n ≡ 0) × (a ≡ 0)
unfolding has_term
first-Has t n a h = elim (Bool-cases (t == 0)) [
  | inr later ↦ ground (arith, later, h)
  | inl start ↦
      (ground arith, sentinel-place n a (rw start at h), sentinel-term n a (rw start at h))
]
  where
    sentinel-place : (n a : ℕ) → Has (sentinel ∷ []) n a → n ≡ 0
    sentinel-place zero a h = refl
    sentinel-place (suc n) a h = ground (arith, h)

    sentinel-term : (n a : ℕ) → Has (sentinel ∷ []) n a → a ≡ 0
    sentinel-term zero a h = ground (arith, h)
    sentinel-term (suc n) a h = ground (arith, h)

first-size : (t : ℕ) → length (first_history t) ≡ first_acks "" t
first-size t = elim (Bool-cases (t == 0)) [ inl start ↦ rw start refl | inr later ↦ rw later refl ]

sentinel-Has : Has (sentinel ∷ []) 0 0
unfolding has_term
sentinel-Has = refl

sentinel-index : (i : ℕ) (e : LogEntry) → get_elem? (sentinel ∷ []) i ≡ some e → e.index ≡ i
sentinel-index zero e h = ap (λ (x : LogEntry). x.index) (sym (some_inj h))
sentinel-index (suc i) e h = ground arith

first-Ordered : Ordered first_history
first-Ordered = record {
  mono = λ s i j a b le hi hj. omega (arith, first-Has s i a hi, first-Has s j b hj);
  last = λ s pos. elim (Bool-cases (s == 0)) [
    | inl start ↦
        subst (λ u. Has (first_history u) (length (first_history u) - 1) u) (eq_of_test s 0 start)
          sentinel-Has
    | inr later ↦ absurd (ground (arith, first-size s, later))
  ];
  indexed = λ s i e at. elim (Bool-cases (s == 0)) [
    | inl start ↦ sentinel-index i e (rw start at at)
    | inr later ↦ ground (arith, later, at)
  ];
}

count-all :
    (xs : List String) (p : String → Bool) → ((v : String) → p v ≡ true) → count p xs ≡ length xs
count-all [] p all = refl
count-all (x ∷ xs) p all = ground (arith, all x, count-all xs p all)

length-pos : (xs : List String) (i : String) → contains xs i ≡ true → 0 < length xs
length-pos [] i h = ground (arith, h)
length-pos (x ∷ xs) i h = omega arith

module _ (members : List String) (configs : String → Config) (timeouts : String → ℕ)
    (config : IsConfigured members configs) (group : IsGroup members configs) where
  Sound-new_machine : Sound members (new_machine configs timeouts) first_history first_acks
  unfolding new_machine new_group initial init
  Sound-new_machine = record {
    inv = Inv-initial members configs timeouts config;
    logged = Logged-new_group members configs timeouts;
    ord = first-Ordered;
    keeps = record {
      inside = λ v t. omega (arith, first-size t);
      past = λ v t pos. ground (arith, pos);
      kept = λ v mem t n lt h.
          let start = (first-Has t n t h).0 in
          inl (
            subst (Has (sentinel ∷ []) n) (sym start)
              (subst (λ u. Has (first_history u) n u) start h));
      voted = λ c u v g. cc;
      quorum = λ u pos begun. ground (arith, first-size u);
    };
    dated = λ i mem. record {
      below = λ n a h. omega (arith, (first-Has 0 n a h).2);
      full = omega arith;
    };
    placed = λ args h. absurd (Memᴰ.not-nil h);
    asks = λ args h. absurd (Memᴰ.not-nil h);
    replied = λ a h. absurd (Memᴰ.not-nil h);
    leads = λ i mem l. cc;
  }

  Commits-new_machine :
      let m = new_machine configs timeouts in Commits members m.sys m.sent first_history first_acks
  unfolding new_machine new_group initial init IsGroup
  Commits-new_machine = record {
    fine = λ i mem. record {
      safe = record {
        t = 0;
        n = 0;
        chosen = record {
          has = sentinel-Has;
          enough = omega (
            arith,
            count-all members (λ v. ltb 0 (first_acks v 0)) (λ v. refl),
            length-pos members i mem,
          );
        };
        old = omega arith;
        reach = omega arith;
        same = refl;
      };
      matched = λ l p k at. cc;
      group = group i mem;
    };
    carries = λ args h. absurd (Memᴰ.not-nil h);
  }

  pub HasCommits-new_machine : HasCommits members (new_machine configs timeouts)
  HasCommits-new_machine = (first_history, first_acks, Sound-new_machine, Commits-new_machine)
