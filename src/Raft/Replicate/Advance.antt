-- ===== src/Raft/Replicate/Advance.antt =====
-- What `_advance_commit_index` commits.
use native.Mathlib.Decide.{dec_lt}
use dssd.Prelude.{
  ℕ, zero, suc, ◌+◌, ◌≤◌, ◌<◌, ◌≡◌, refl, ◌⊎◌, inl, inr, String, Bool, true, false, none, some,
  List, [], ◌∷◌, leb, if◌then◌else◌, Dict, lookup, contains, count, Bool-cases, eq_refl, ◌&&◌,
  subst, leb→le, arith,
}
use dssd.Raft.State.{Raft, majority, last_index}
use dssd.Raft.Log.{has_term, lt-of_has_term}
use dssd.Raft.Replicate.{count_replicas, advance_loop, advance_commit_index}

-- Every peer has an entry in the table.
unfoldable pub Covers : Dict ℕ → List String → Type 0
Covers d ps = (p : String) → contains ps p ≡ true → (m : ℕ) × (lookup p d ≡ some m)

-- The peer is known to have entry `n`.
abbrev pub has_entry : Dict ℕ → ℕ → String → Bool
has_entry d n p = elim (lookup p d) [ none ↦ false | some m ↦ leb n m ]

count_replicas-count :
    (d : Dict ℕ) (n : ℕ) (ps : List String)
    → Covers d ps
    → count_replicas d n ps ≡ some (count (has_entry d n) ps)
unfolding count_replicas Covers
count_replicas-count d n [] cover = refl
count_replicas-count d n (p ∷ ps) cover =
    let (m, e) = cover p (rw eq_refl) in
    ground (arith, e, count_replicas-count d n ps (λ q h. cover q (ground arith)))

-- An entry of the current term that this node and enough peers for a majority have.
pub record Committable (r : Raft) (n : ℕ) : Type 0 where
  pub current : has_term r.log n r.current_term ≡ true
  pub replicated : majority r ≤ 1 + count (has_entry r.match_index n) r.cfg.peers

-- The newest committable entry above the commit index becomes the commit index; without one
-- nothing changes.
unfoldable pub Advanced : Raft → Raft → Type 0
Advanced r r' =
    ((r' ≡ r) × ((k : ℕ) → r.commit_index < k → ¬ Committable r k))
    ⊎ ((n : ℕ) × (r' ≡ record r { commit_index = n; apply_signal = true })
        × (r.commit_index < n)
        × Committable r n
        × ((k : ℕ) → n < k → ¬ Committable r k))

-- The test that the loop makes at `n`, with the replicas counted.
commits : Raft → ℕ → Bool
commits r n =
    has_term r.log n r.current_term
    && leb (majority r) (1 + count (has_entry r.match_index n) r.cfg.peers)

advance_loop-suc :
    (r : Raft) (n : ℕ)
    → Covers r.match_index r.cfg.peers
    → advance_loop r (suc n) ≡ (
        if leb (suc n) r.commit_index
        then some r
        else if commits r (suc n)
        then some (record r { commit_index = suc n; apply_signal = true })
        else advance_loop r n)
unfolding advance_loop commits
advance_loop-suc r n cover =
    ground (arith, count_replicas-count r.match_index (suc n) r.cfg.peers cover)

commits-Committable : (r : Raft) (n : ℕ) → commits r n ≡ true → Committable r n
unfolding commits
commits-Committable r n h = ground arith

not_commits : (r : Raft) (n : ℕ) → commits r n ≡ false → ¬ Committable r n
unfolding commits
not_commits r n h c = ground arith

none_from :
    (r : Raft) (n : ℕ)
    → ¬ Committable r (suc n)
    → ((k : ℕ) → suc n < k → ¬ Committable r k)
    → (k : ℕ) → n < k
    → ¬ Committable r k
none_from r n here above k h c = elim (dec_lt (suc n) k) [
  | yes far ↦ above k far c
  | no near ↦ here (subst (Committable r) (omega arith) c)
]

advance_loop-Advanced :
    (r : Raft) (n : ℕ)
    → Covers r.match_index r.cfg.peers
    → ((k : ℕ) → n < k → ¬ Committable r k)
    → (r' : Raft) × (advance_loop r n ≡ some r') × Advanced r r'
unfolding Advanced
advance_loop-Advanced r zero cover above =
    (r, unfold advance_loop in refl, inl (refl, λ k h. above k (omega arith)))
advance_loop-Advanced r (suc n) cover above =
    rw (advance_loop-suc r n cover) (elim (Bool-cases (leb (suc n) r.commit_index)) [
      | inl bottom ↦ rw bottom (
        r,
        refl,
        inl (refl, λ k h. above k (omega (arith, leb→le (suc n) r.commit_index bottom))),
      )
      | inr higher ↦ rw higher (elim (Bool-cases (commits r (suc n))) [
        | inl yes' ↦
            rw yes'
              (_, refl, inr (suc n, refl, ground arith, commits-Committable r (suc n) yes', above))
        | inr no' ↦
            rw no'
              (advance_loop-Advanced r n cover (none_from r n (not_commits r (suc n) no') above))
      ])
    ])

-- With a match index for every peer, advancing the commit index succeeds: the new commit index is
-- the largest index above the old one whose entry is of the current term and on a majority, and
-- if there is none the node is unchanged.
pub advance_commit_index-Advanced :
    (r : Raft)
    → Covers r.match_index r.cfg.peers
    → (r' : Raft) × (advance_commit_index r ≡ some r') × Advanced r r'
unfolding advance_commit_index
advance_commit_index-Advanced r cover =
    advance_loop-Advanced r (last_index r) cover
      λ k h c. absurd (omega (arith, lt-of_has_term r.log k r.current_term c.current))
