-- ===== src/Swim/Gossip/Lookup.antt =====
-- What one piece of gossip does to a node's view of one member.
use dssd.Prelude.{
  ◌≡◌, ◌≢◌, refl, sym, ◌∙◌, inl, inr, String, Bool, true, false, not, Option, none, some,
  Bool-cases, str_eq, str_eq→eq, str_eq-of_ne, eq_iff, eq_refl, if◌then◌else◌, lookup,
  lookup-insert, arith,
}
use dssd.Swim.Member.{dead, same_state, Member, supersedes}
use dssd.Swim.Gossip.{Node, set_member, refute, merge_other, merge}

-- The view of one member after one update about it.
unfoldable pub absorb : Member → Option Member → Option Member
absorb u none = if not (same_state u.state dead) then some u else none
absorb u (some c) = if supersedes u c then some u else some c

merge_other-lookup :
    (u : Member) (o : Option Member) (n : Node) (j : String)
    → lookup u.id n.members ≡ o
    → lookup j (merge_other u o n).members
      ≡ (if str_eq u.id j then absorb u o else lookup j n.members)
unfolding merge_other set_member absorb
merge_other-lookup u none n j e = ground (arith, lookup-insert u.id j u n.members, eq_iff u.id j)
merge_other-lookup u (some c) n j e =
    ground (arith, lookup-insert u.id j u n.members, eq_iff u.id j)

refute-members : (u : Member) (n : Node) → (refute u n).members ≡ n.members
unfolding refute
refute-members u n = ground arith

pub merge-id : (u : Member) (n : Node) → (merge u n).id ≡ n.id
unfolding merge refute merge_other set_member
merge-id u n = ground arith

pub merge-own : (u : Member) (n : Node) → u.id ≡ n.id → merge u n ≡ refute u n
unfolding merge
merge-own u n e = ground (arith, eq_iff u.id n.id)

pub merge-foreign :
    (u : Member) (n : Node) → u.id ≢ n.id → merge u n ≡ merge_other u (lookup u.id n.members) n
unfolding merge
merge-foreign u n e = ground (arith, eq_iff u.id n.id)

-- Gossip about a member changes the view of that member alone.
pub lookup-merge :
    (u : Member) (n : Node) (j : String)
    → j ≢ n.id
    → lookup j (merge u n).members
      ≡ (if str_eq u.id j then absorb u (lookup j n.members) else lookup j n.members)
lookup-merge u n j other = elim (Bool-cases (str_eq u.id n.id)) [
  | inl own ↦
      let e = str_eq→eq u.id n.id own in
      rw (merge-own u n e, refute-members u n, str_eq-of_ne u.id j (λ f. other (sym f ∙ e)))
  | inr foreign ↦
      rw (merge-foreign u n (λ e. cc (rw e at foreign, eq_refl n.id))) (
        rw (merge_other-lookup u (lookup u.id n.members) n j refl) (same_view (str_eq u.id j) refl))
]
  where
    same_view :
        (b : Bool)
        → str_eq u.id j ≡ b
        → (if b then absorb u (lookup u.id n.members) else lookup j n.members)
          ≡ (if b then absorb u (lookup j n.members) else lookup j n.members)
    same_view true e = rw (str_eq→eq u.id j e)
    same_view false e = refl
