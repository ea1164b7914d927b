-- ===== src/Playground/Network/Sides.antt =====
-- playground.py: who reaches whom in a network that is split.
use dssd.Prelude.{
  ℕ, ◌+◌, ◌≡◌, refl, ◌∙◌, ap, ◌↔◌, ◌≤◌, String, true, false, Option, none, some, List, [], ◌∷◌,
  Dict, lookup, contains, fill, lookup-fill, if◌then◌else◌, arith,
}
use dssd.Playground.Network.{MemoryNetwork, delivers, sides, partition, get_or_zero}

-- The number of the last group that names this node, or else `o`.
abbrev pub last_group : String → (i : ℕ) → List (List String) → Option ℕ → Option ℕ
last_group n i [] o = o
last_group n i (group ∷ groups) o =
    last_group n (i + 1) groups (if contains group n then some i else o)

lookup-sides :
    (n : String) (i : ℕ) (groups : List (List String)) (d : Dict ℕ)
    → lookup n (sides i groups d) ≡ last_group n i groups (lookup n d)
unfolding sides
lookup-sides n i [] d = refl
lookup-sides n i (group ∷ groups) d =
    lookup-sides n (i + 1) groups (fill group i d)
    ∙ ap (last_group n (i + 1) groups) (lookup-fill n group i d)

-- The side of a node after a split; one that no group names is on the first side.
abbrev pub side_of : String → List (List String) → ℕ
side_of n groups = get_or_zero (last_group n 0 groups none)

pub record Reaches (draw : ℕ) (src dst : String) (groups : List (List String)) (net : MemoryNetwork)
    : Type 0 where
  pub sender_up : contains net.down src ≡ false
  pub receiver_up : contains net.down dst ≡ false
  pub same_side : side_of src groups ≡ side_of dst groups
  pub lucky : net.loss ≤ draw

-- After a split, a packet is delivered exactly if neither end is down, the last groups that name
-- the two ends have the same number, where an end that no group names counts as one of the first
-- group, and the draw is not below the loss.
pub partition-Reaches :
    (draw : ℕ) (src dst : String) (groups : List (List String)) (net : MemoryNetwork)
    → (delivers draw src dst (partition groups net) ≡ true) ↔ Reaches draw src dst groups net
unfolding delivers partition lookup
partition-Reaches draw src dst groups net =
    rw (lookup-sides src 0 groups [], lookup-sides dst 0 groups [])
      (
        λ h. record {
          sender_up = ground arith;
          receiver_up = ground arith;
          same_side = ground arith;
          lucky = ground arith;
        },
        λ v. ground (arith, v.sender_up, v.receiver_up, v.same_side, v.lucky),
      )
