-- ===== src/Swim/Gossip/Sound.antt =====
-- The well-formedness of a node's tables, and that every change of them keeps it.
use dssd.Prelude.{
  ℕ, ◌+◌, ◌<◌, ◌≡◌, ◌≢◌, refl, sym, ◌∙◌, inl, inr, String, Option, none, some, List, [], ◌∷◌,
  Bool-cases, Option-cases, str_eq, str_eq→eq, eq_iff, Dict, lookup, insert, remove, ℕ, arith,
}
use dssd.Swim.Member.{State, Member, max_transmits_per_update}
use dssd.Swim.Gossip.{Node, me, set_member, mark, refute, merge, merge_other, merge_all, Queued}
use dssd.Swim.Gossip.Lookup.{merge-own, merge-foreign}

-- Members stand under their own ids, and the node is not among them.
abbrev pub KeyedMembers : String → Dict Member → Type 0
KeyedMembers own [] = Unit
KeyedMembers own ((k, m) ∷ d) = (m.id ≡ k) × (k ≢ own) × KeyedMembers own d

-- Updates stand under their members' ids, and none has had its last transmission.
abbrev pub KeyedQueue : List Queued → Type 0
KeyedQueue [] = Unit
KeyedQueue ((k, (m, sent)) ∷ d) = (m.id ≡ k) × (sent < max_transmits_per_update) × KeyedQueue d

pub record IsSound (n : Node) : Type 0 where
  pub members : KeyedMembers n.id n.members
  pub queue : KeyedQueue n.broadcasts

insert-KeyedMembers :
    (own : String) (m : Member) (d : Dict Member)
    → m.id ≢ own
    → KeyedMembers own d
    → KeyedMembers own (insert m.id m d)
unfolding insert
insert-KeyedMembers own m [] other k = (refl, other, tt)
insert-KeyedMembers own m ((j, x) ∷ d) other k = elim (Bool-cases (str_eq j m.id)) [
  | inl hit ↦ rw hit (sym (str_eq→eq j m.id hit), k.1, k.2)
  | inr miss ↦ rw miss (k.0, k.1, insert-KeyedMembers own m d other k.2)
]

pub insert-KeyedQueue :
    (m : Member) (sent : ℕ) (d : Dict (Member × ℕ))
    → sent < max_transmits_per_update
    → KeyedQueue d
    → KeyedQueue (insert m.id (m, sent) d)
unfolding insert
insert-KeyedQueue m sent [] small k = (refl, small, tt)
insert-KeyedQueue m sent ((j, (x, c)) ∷ d) small k = elim (Bool-cases (str_eq j m.id)) [
  | inl hit ↦ rw hit (sym (str_eq→eq j m.id hit), small, k.2)
  | inr miss ↦ rw miss (k.0, k.1, insert-KeyedQueue m sent d small k.2)
]

pub lookup-KeyedMembers :
    (own j : String) (d : Dict Member) (m : Member)
    → KeyedMembers own d
    → lookup j d ≡ some m
    → (m.id ≡ j) × (j ≢ own)
unfolding lookup
lookup-KeyedMembers own j [] m k h = cc
lookup-KeyedMembers own j ((i, x) ∷ d) m k h =
    ground (arith, eq_iff i j, lookup-KeyedMembers own j d m k.2)

pub set_member-IsSound :
    (m : Member) (n : Node) → m.id ≢ n.id → IsSound n → IsSound (set_member m n)
unfolding set_member
set_member-IsSound m n other v = record {
  members = insert-KeyedMembers n.id m n.members other v.members;
  queue = insert-KeyedQueue m 0 n.broadcasts (omega arith) v.queue;
}

-- A mark keeps the tables sound.
pub mark-IsSound :
    (id : String) (new_state from_state : State) (incarnation : Option ℕ) (n : Node)
    → IsSound n
    → IsSound (mark id new_state from_state incarnation n)
unfolding mark
mark-IsSound id new_state from_state incarnation n v = elim (Option-cases (lookup id n.members)) [
  | inl e ↦ rw e v
  | inr (c, e) ↦
      let (same, other) = lookup-KeyedMembers n.id id n.members c v.members e in
      let out : c.id ≢ n.id = λ f. other (sym same ∙ f) in
      rw e (ground (arith, set_member-IsSound (record c { state = new_state }) n out v))
]

refute-IsSound : (u : Member) (n : Node) → IsSound n → IsSound (refute u n)
unfolding refute
refute-IsSound u n v = ground (arith, queued)
  where
    queued :
        KeyedQueue (insert n.id (record (me n) { incarnation = u.incarnation + 1 }, 0) n.broadcasts)
    queued =
        insert-KeyedQueue (record (me n) { incarnation = u.incarnation + 1 }) 0 n.broadcasts
          (omega arith) v.queue

merge_other-IsSound :
    (u : Member) (o : Option Member) (n : Node)
    → u.id ≢ n.id
    → IsSound n
    → IsSound (merge_other u o n)
unfolding merge_other
merge_other-IsSound u none n other v = ground (arith, set_member-IsSound u n other v)
merge_other-IsSound u (some c) n other v = ground (arith, set_member-IsSound u n other v)

pub merge-IsSound : (u : Member) (n : Node) → IsSound n → IsSound (merge u n)
merge-IsSound u n v = elim (Bool-cases (str_eq u.id n.id)) [
  | inl own ↦ rw (merge-own u n (str_eq→eq u.id n.id own)) (refute-IsSound u n v)
  | inr foreign ↦
      let other : u.id ≢ n.id = λ e. ground (arith, eq_iff u.id n.id) in
      rw (merge-foreign u n other) (merge_other-IsSound u (lookup u.id n.members) n other v)
]

pub merge_all-IsSound : (us : List Member) (n : Node) → IsSound n → IsSound (merge_all us n)
unfolding merge_all
merge_all-IsSound [] n v = v
merge_all-IsSound (u ∷ us) n v = merge_all-IsSound us (merge u n) (merge-IsSound u n v)

pub remove-KeyedQueue :
    (k : String) (d : Dict (Member × ℕ)) → KeyedQueue d → KeyedQueue (remove k d)
unfolding remove
remove-KeyedQueue k [] v = tt
remove-KeyedQueue k ((j, (m, sent)) ∷ d) v = ground (arith, remove-KeyedQueue k d v.2)
