-- ===== src/Raft/Machine/Counts.antt =====
-- What a leader commits is chosen.
use mathlib.Core.List.{Permᴰ}
use dssd.Prelude.{
  ℕ, zero, suc, ◌+◌, ◌≡◌, refl, ap, ◌∙◌, ◌⊎◌, inl, inr, String, Bool, true, some, Option-cases,
  List, [], ◌∷◌, length, count, count_mono, lookup, ltb, leb, Bool-cases, Dict, leb→le, arith,
}
use dssd.Raft.State.{Raft, is_leader, majority}
use dssd.Raft.Log.{has_term, lt-of_has_term}
use dssd.Raft.Replicate.{count_replicas, advance_loop}
use dssd.Raft.Replicate.Advance.{has_entry, Committable}
use dssd.Raft.Group.History.{History}
use dssd.Raft.Machine.Kept.{Acks}
use dssd.Raft.Machine.Complete.{Chosen}
use dssd.Raft.Machine.Fine.{Matched}

count_replicas-some :
    (d : Dict ℕ) (n : ℕ) (ps : List String) (c : ℕ)
    → count_replicas d n ps ≡ some c
    → c ≡ count (has_entry d n) ps
unfolding count_replicas
count_replicas-some d n [] c h = ground (arith, h)
count_replicas-some d n (p ∷ ps) c h = elim (Option-cases (lookup p d)) [
  | inl gone ↦ ground (arith, gone, h)
  | inr (m, at) ↦ elim (Option-cases (count_replicas d n ps)) [
    | inl lost ↦ ground (arith, at, lost, h)
    | inr (k, rest) ↦ ground (arith, at, rest, h, count_replicas-some d n ps k rest)
  ]
]

-- The loop leaves the node as it was, or commits an entry of its term that enough peers have.
pub advance_loop-commits :
    (r r' : Raft) (n : ℕ)
    → advance_loop r n ≡ some r'
    → (r' ≡ r)
      ⊎ ((k : ℕ) × (r' ≡ record r { commit_index = suc k; apply_signal = true })
          × Committable r (suc k))
unfolding advance_loop
advance_loop-commits r r' zero h = inl (ground (arith, h))
advance_loop-commits r r' (suc n) h = elim (Bool-cases (leb (suc n) r.commit_index)) [
  | inl bottom ↦ inl (ground (arith, h, bottom))
  | inr higher ↦ elim (Bool-cases (has_term r.log (suc n) r.current_term)) [
    | inr other ↦ advance_loop-commits r r' n (ground (arith, h, higher, other))
    | inl current ↦ elim (Option-cases (count_replicas r.match_index (suc n) r.cfg.peers)) [
      | inl lost ↦ ground (arith, h, higher, current, lost)
      | inr (c, found) ↦ elim (Bool-cases (leb (majority r) (1 + c))) [
        | inr few ↦ advance_loop-commits r r' n (ground (arith, h, higher, current, found, few))
        | inl enough ↦ inr (
          n,
          ground (arith, h, higher, current, found, enough),
          record {
            current = current;
            replicated = omega (
              arith,
              leb→le (majority r) (1 + c) enough,
              count_replicas-some r.match_index (suc n) r.cfg.peers c found,
            );
          },
        )
      ]
    ]
  ]
]

count-perm : (p : String → Bool) {xs ys : List String} → Permᴰ xs ys → count p xs ≡ count p ys
count-perm p Permᴰ.nil = refl
count-perm p (Permᴰ.cons e q) = ground (arith, ap p e, count-perm p q)
count-perm p (Permᴰ.swap e f) = ground (arith, ap p e, ap p f)
count-perm p (Permᴰ.trans q q') = count-perm p q ∙ count-perm p q'

length-perm : {xs ys : List String} → Permᴰ xs ys → length xs ≡ length ys
length-perm Permᴰ.nil = refl
length-perm (Permᴰ.cons e q) = ap suc (length-perm q)
length-perm (Permᴰ.swap e f) = refl
length-perm (Permᴰ.trans q q') = length-perm q ∙ length-perm q'

module _ (members : List String) (G : History) (B : Acks) (r : Raft)
    (leads : is_leader r.role ≡ true) (whole : r.log ≡ G r.current_term)
    (own : B r.cfg.id r.current_term ≡ length (G r.current_term)) (matched : Matched B r)
    (group : Permᴰ (r.cfg.id ∷ r.cfg.peers) members) where
  known :
      (k : ℕ) (p : String)
      → has_entry r.match_index (suc k) p ≡ true
      → ltb (suc k) (B p r.current_term) ≡ true
  known k p h = elim (Option-cases (lookup p r.match_index)) [
    | inl gone ↦ ground (arith, h, gone)
    | inr (m, at) ↦ ground (arith, h, at, matched leads p m at)
  ]

  pub Committable-Chosen :
      (k : ℕ) → Committable r (suc k) → Chosen members G B r.current_term (suc k)
  Committable-Chosen k c = record {
    has = rw (← whole) c.current;
    enough = omega (
      arith,
      c.replicated,
      length-perm group,
      count-perm (λ v. ltb (suc k) (B v r.current_term)) group,
      count_mono (has_entry r.match_index (suc k)) (λ v. ltb (suc k) (B v r.current_term))
          r.cfg.peers (known k),
      mine,
    );
  }
    where
      mine :
          count (λ v. ltb (suc k) (B v r.current_term)) (r.cfg.id ∷ r.cfg.peers)
          ≡ 1 + count (λ v. ltb (suc k) (B v r.current_term)) r.cfg.peers
      mine =
          ground
            (arith, own, ap length whole, lt-of_has_term r.log (suc k) r.current_term c.current)
