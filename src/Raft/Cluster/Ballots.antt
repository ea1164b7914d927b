-- ===== src/Raft/Cluster/Ballots.antt =====
-- One more ballot in the network.
use mathlib.Core.Path.{subst₂}
use dssd.Raft.State.{Raft}
use dssd.Raft.Node.Terms.{Later}
use dssd.Prelude.{ℕ, ◌≡◌, ◌⊎◌, inl, inr, subst, String, true, List, eq_iff, eq_refl, arith}
use dssd.Raft.Cluster.{Ballots, System, mark, put}
use dssd.Raft.Cluster.Invariant.{Inv, Cast, put-Cast}

pub mark-cases :
    (b : Ballots) (c c' : String) (t t' : ℕ) (w w' : String)
    → mark b c t w c' t' w' ≡ true
    → ((c ≡ c') × (t ≡ t') × (w ≡ w')) ⊎ (b c' t' w' ≡ true)
mark-cases b c c' t t' w w' h = ground (arith, eq_iff c c', eq_iff w w')

pub mark-more :
    (b : Ballots) (c : String) (t : ℕ) (w : String) (c' : String) (t' : ℕ) (w' : String)
    → b c' t' w' ≡ true
    → mark b c t w c' t' w' ≡ true
mark-more b c t w c' t' w' h = ground arith

-- A ballot that `w` may cast: a first one in its term, or for the candidate that it has voted for.
pub mark-single :
    (members : List String) (s : System) (c : String) (t : ℕ) (w : String)
    → Inv members s
    → ((c' : String) → s.granted c' t w ≡ true → c ≡ c')
    → (a b : String) (t' : ℕ) (w' : String) → mark s.granted c t w a t' w' ≡ true
    → mark s.granted c t w b t' w' ≡ true
    → a ≡ b
mark-single members s c t w v only a b t' w' ga gb = ground (
  arith,
  mark-cases s.granted c a t t' w w' ga,
  mark-cases s.granted c b t t' w w' gb,
  only a,
  only b,
  v.single a b t' w',
)

-- Every ballot still fits its voter after one more that fits.
pub mark-Cast :
    (members : List String) (s : System) (c : String) (t : ℕ) (w : String) (r' : Raft)
    → Later (s.node w) r'
    → Inv members s
    → Cast c t r'
    → (c' : String) (t' : ℕ) (w' : String) → mark s.granted c t w c' t' w' ≡ true
    → Cast c' t' (put s.node w r' w')
mark-Cast members s c t w r' later v k c' t' w' g = elim (mark-cases s.granted c c' t t' w w' g) [
  | inl (ec, et, ew) ↦
      subst (λ x. Cast c' t' (put s.node w r' x)) ew
        (rw eq_refl (subst₂ (λ a b. Cast a b r') ec et k))
  | inr old ↦ put-Cast members s w r' later v c' t' w' old
]
