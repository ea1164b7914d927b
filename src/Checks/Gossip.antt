-- ===== src/Checks/Gossip.antt =====
-- swim.py: a node with two members, and the gossip that reaches it.
use mathlib.Core.List.{Perm}
use mathlib.Core.List.Perm
use dssd.Prelude.{
  ℕ, ◌≤◌, ◌<◌, ◌≡◌, ◌≢◌, refl, ◌↔◌, String, true, some, List, [], ◌∷◌, ◌++◌, lookup, length, map,
  eq_iff, arith,
}
use dssd.Swim.Member.{State, alive, suspect, dead, Member, supersedes}
use dssd.Swim.Member.Order.{rank, supersedes-rank, supersedes_cycle}
use dssd.Swim.Gossip.{
  Node, Queued, fresh, merge, merge_all, expire, take_broadcasts, update_of, due,
}
use dssd.Swim.Gossip.Convergence.{news, merge_all-perm}
use dssd.Swim.Gossip.Refute.{Refutes, merge-Refutes}
use dssd.Swim.Gossip.Sound.{IsSound}
use dssd.Swim.Gossip.Queue.{NoMoreOften, take_broadcasts-least}
use dssd.Swim.Gossip.Suspicion.{expire_all, suspicion_stuck}
use dssd.Swim.Node.{ping, handle}
use dssd.Swim.Node.Reach
use dssd.Swim.Node.Reach.{Grows, Reach-Grows}

abbrev member : String → State → ℕ → Member
member i s k = record { id = i; addr = i; state = s; incarnation = k }

abbrev node : Node
node = record (fresh "a" "a:1") {
  members = ("b", member "b" alive 1) ∷ ("c", member "c" suspect 2) ∷ [];
  broadcasts = ("b", (member "b" alive 1, 3)) ∷ ("c", (member "c" suspect 2, 0)) ∷ [];
  timers = member "c" suspect 2 ∷ [];
}

a_not_b : ◌≢◌ {A = String} "a" "b"
a_not_b = ground (arith, eq_iff "a" "b")

a_not_c : ◌≢◌ {A = String} "a" "c"
a_not_c = ground (arith, eq_iff "a" "c")

c_not_a : ◌≢◌ {A = String} "c" "a"
c_not_a = ground (arith, eq_iff "c" "a")

b_not_a : ◌≢◌ {A = String} "b" "a"
b_not_a = ground (arith, eq_iff "b" "a")

supersedes-rank_example :
    (supersedes (member "b" suspect 1) (member "b" alive 1) ≡ true)
    ↔ (rank (member "b" alive 1) < rank (member "b" suspect 1))
supersedes-rank_example =
    supersedes-rank (member "b" suspect 1) (member "b" alive 1) (λ e. cc) (λ e. cc)

supersedes_cycle_example :
    (supersedes (member "b" dead 1) (member "b" alive 2) ≡ true)
    × (supersedes (member "b" alive 2) (member "b" dead 1) ≡ true)
supersedes_cycle_example =
    supersedes_cycle (member "b" dead 1) (member "b" alive 2) refl (λ e. cc) (omega arith)

merge_all-perm_example :
    news (lookup "b" (merge_all (member "b" suspect 1 ∷ member "b" alive 2 ∷ []) node).members)
    ≡ news (lookup "b" (merge_all (member "b" alive 2 ∷ member "b" suspect 1 ∷ []) node).members)
unfolding fresh lookup
merge_all-perm_example =
    merge_all-perm (member "b" suspect 1 ∷ member "b" alive 2 ∷ [])
      (member "b" alive 2 ∷ member "b" suspect 1 ∷ []) node node "b" (Perm.swap _ _ [])
      ((λ e. cc), ((λ e. cc), tt)) ((λ e. cc), ((λ e. cc), tt)) b_not_a b_not_a (λ e. cc) refl

merge-Refutes_example : Refutes (member "a" dead 4) node (merge (member "a" dead 4) node)
unfolding fresh
merge-Refutes_example = merge-Refutes (member "a" dead 4) node refl (λ e. cc) (omega arith)

node-IsSound : IsSound node
unfolding fresh
node-IsSound = record {
  members = (refl, b_not_a, (refl, c_not_a, tt));
  queue = (refl, omega arith, (refl, omega arith, tt));
}

Reach-Grows_example :
    Grows node
      (handle
        (record {
          type = ping;
          seq = 1;
          sender = member "b" alive 1;
          target_addr = "";
          updates = member "a" suspect 0 ∷ [];
        })
        node).0
Reach-Grows_example = Reach-Grows (Reach.later Reach.here (Reach.handles _)) node-IsSound

-- The timer of c ends before the one of b.
abbrev without_c : Node
without_c =
    expire (member "c" suspect 2)
      (record (merge (member "b" suspect 1) node) { timers = member "b" suspect 1 ∷ [] })

-- c is suspect at 2; the news that it is suspect at 3 starts no timer, and c stays suspect.
suspicion_stuck_example :
    ((merge (member "c" suspect 3) node).timers ≡ member "c" suspect 2 ∷ [])
    × (lookup "c" (merge (member "c" suspect 3) node).members ≡ some (member "c" suspect 3))
    × (lookup "c"
          (expire_all
            (merge (member "c" suspect 3) node).timers
            (merge (member "c" suspect 3) node)).members
        ≡ some (member "c" suspect 3))
unfolding fresh lookup
suspicion_stuck_example =
    suspicion_stuck (member "c" suspect 3) (member "c" suspect 2) node node-IsSound c_not_a refl
      refl refl (omega arith) (omega arith)

take_broadcasts-least_example :
    (waits : List Queued) × (length (take_broadcasts node).1 ≤ 8)
    × ((take_broadcasts node).1 ≡ map update_of (due node))
    × Perm (due node ++ waits) node.broadcasts
    × NoMoreOften (due node) waits
take_broadcasts-least_example = take_broadcasts-least node

-- The suspicion, which was never sent, goes first.
least_first : (take_broadcasts node).1 ≡ member "c" suspect 2 ∷ member "b" alive 1 ∷ []
unfolding take_broadcasts fresh
least_first = refl
