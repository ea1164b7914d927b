-- ===== src/Playground/Consensus/Watch.antt =====
-- playground.py, lines 302-332: how the changes in the nodes become lines of the
-- feed. A set of ids is kept as the list of its members in the nodes' order.
use dssd.Prelude.{
  ℕ, String, Bool, false, not, ◌&&◌, Option, none, some, List, [], ◌∷◌, ◌++◌, contains, str_eq,
  if◌then◌else◌, Dict, lookup, insert,
}
use dssd.Raft.State.{Role, follower, candidate, leader}
use dssd.Swim.Member.{State, alive, dead, same_state, Member}
use dssd.Swim.Agent.{members}
use dssd.Playground.Network.{MemoryNetwork, discard}
use dssd.Playground.Cluster.{won, campaigns, stepped_down, suspects, declares_dead, recovered, note}
use dssd.Playground.Consensus.{Consensus, node_of, noted, str_lt}

-- The values of raft.py's Role.
abbrev pub role_value : Role → String
role_value follower = "follower"
role_value candidate = "candidate"
role_value leader = "leader"

unfoldable pub view_all : (nid : String) → List Member → Dict State → Dict State
unfolding insert
view_all nid [] d = d
view_all nid (m ∷ ms) d = view_all nid ms (if str_eq m.id nid then d else insert m.id m.state d)

-- `_views`; `none` is the KeyError of an unknown node, or the error of one that is not started.
unfoldable pub views : (nid : String) → Consensus → Option (Dict State)
unfolding view_all lookup members
views nid c = elim (lookup nid c.swim) [
  | none ↦ none
  | some a ↦ elim (members a) [ none ↦ none | some ms ↦ some (view_all nid ms []) ]
]

abbrev pub role_is : String → Option String → Bool
role_is role none = false
role_is role (some last) = str_eq last role

-- The line for a node whose role was `last` and now is `role`.
unfoldable pub role_line :
    (now term : ℕ) (nid role : String) → Option String → Consensus → Consensus
unfolding note
role_line now term nid role last c =
    if str_eq role "leader"
    then noted now (won nid term) c
    else if str_eq role "candidate"
    then noted now (campaigns nid term) c
    else if role_is "leader" last && str_eq role "follower"
    then noted now (stepped_down nid) c
    else c

-- The first loop of `_watch`, for one node.
unfoldable pub watch_role : (now : ℕ) (nid : String) → Consensus → Option Consensus
unfolding node_of role_line lookup insert
watch_role now nid c = elim (node_of nid c.cluster.net) [
  | none ↦ none
  | some r ↦
      let role = if contains c.cluster.net.down nid then "down" else role_value r.role in
      let last = lookup nid c.last_roles in
      let noticed = role_line now r.current_term nid role last c in
      some (
        if role_is role last
        then c
        else record noticed { last_roles = insert nid role noticed.last_roles })
]

-- Whether a view of the target passes a test.
abbrev pub believes : (State → Bool) → Option State → Bool
believes test none = false
believes test (some s) = test s

-- Those of these nodes, the target aside, whose view of it passes the test.
unfoldable pub believers :
    (State → Bool) → (target : String) → List String → Consensus → Option (List String)
unfolding views lookup
believers test target [] c = some []
believers test target (v ∷ vs) c =
    let rest = believers test target vs c in
    if str_eq v target then rest else elim (views v c) [
      | none ↦ none
      | some seen ↦ elim rest [
        | none ↦ none
        | some found ↦ some (if believes test (lookup target seen) then v ∷ found else found)
      ]
    ]

-- `sorted(xs)[0]` of a list that begins with this text.
abbrev pub first_sorted : String → List String → String
first_sorted x [] = x
first_sorted x (y ∷ ys) = first_sorted (if str_lt y x then y else x) ys

abbrev pub troubled : State → Bool
troubled s = not (same_state s alive)

abbrev pub lost : State → Bool
lost s = same_state s dead

-- The three tests of `_watch` for one target, from the nodes that suspect it and those of them to
-- which it is dead.
unfoldable pub note_suspicion :
    (now : ℕ) (target : String) (suspecting before : List String) → Consensus → Consensus
unfolding note
note_suspicion now target (v ∷ vs) [] c = noted now (suspects (first_sorted v vs) target) c
note_suspicion now target (v ∷ vs) (b ∷ bs) c = c
note_suspicion now target [] before c = c

unfoldable pub note_death : (now : ℕ) (target : String) (gone : List String) → Consensus → Consensus
unfolding note
note_death now target [] c = c
note_death now target (v ∷ vs) c =
    if contains c.reported_dead target
    then c
    else noted now (declares_dead (first_sorted v vs) target)
        (record c { reported_dead = c.reported_dead ++ target ∷ [] })

unfoldable pub note_recovery :
    (now : ℕ) (target : String) (suspecting before : List String) → Consensus → Consensus
unfolding note discard
note_recovery now target [] (b ∷ bs) c =
    if contains c.cluster.net.down target
    then c
    else noted now (recovered target) (record c { reported_dead = discard target c.reported_dead })
note_recovery now target [] [] c = c
note_recovery now target (v ∷ vs) before c = c

-- The second loop of `_watch`, for one target.
unfoldable pub watch_target :
    (now : ℕ) (up : List String) (target : String) → Consensus → Option Consensus
unfolding believers note_suspicion note_death note_recovery lookup insert
watch_target now up target c = elim (believers troubled target up c) [
  | none ↦ none
  | some suspecting ↦ elim (lookup target c.last_trouble) [
    | none ↦ none
    | some before ↦ elim (believers lost target suspecting c) [
      | none ↦ none
      | some gone ↦
          let c' =
            note_recovery now target suspecting before
              (note_death now target gone (note_suspicion now target suspecting before c)) in
          some (record c' { last_trouble = insert target suspecting c'.last_trouble })
    ]
  ]
]

unfoldable pub up_ids : List String → MemoryNetwork → List String
up_ids [] net = []
up_ids (n ∷ ns) net = let rest = up_ids ns net in if contains net.down n then rest else n ∷ rest

-- A loop over ids.
unfoldable pub for_each :
    (String → Consensus → Option Consensus) → List String → Consensus → Option Consensus
for_each f [] c = some c
for_each f (x ∷ xs) c = elim (f x c) [ none ↦ none | some c' ↦ for_each f xs c' ]

-- `_watch`
unfoldable pub watch : (now : ℕ) → Consensus → Option Consensus
unfolding for_each watch_role watch_target up_ids
watch now c = elim (for_each (watch_role now) c.ids c) [
  | none ↦ none
  | some c' ↦ for_each (watch_target now (up_ids c'.ids c'.cluster.net)) c'.ids c'
]
