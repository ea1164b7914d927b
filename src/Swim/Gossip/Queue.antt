-- ===== src/Swim/Gossip/Queue.antt =====
-- `_take_broadcasts`: which updates go out, and what stays queued.
use mathlib.Core.List.{Perm}
use mathlib.Core.List.Perm
use dssd.Prelude.{
  ℕ, zero, suc, ◌+◌, ◌≤◌, ◌≡◌, refl, subst, inl, inr, String, List, [], ◌∷◌, ◌++◌, take, drop,
  length, length-take, length-map, take-append-drop, Bool-cases, leb, leb→le, eq_iff, Dict, insert,
  remove, map, arith,
}
use dssd.Swim.Member.{Member, max_transmits_per_update, max_updates_per_message}
use dssd.Swim.Gossip.{
  Node, Queued, sent_count, update_of, insert_sorted, sort, transmit, transmit_all, take_broadcasts,
  due,
}
use dssd.Swim.Gossip.Sound.{IsSound, KeyedQueue, insert-KeyedQueue, remove-KeyedQueue}

remove-insert :
    (k : String) (x : Member × ℕ) (d : Dict (Member × ℕ)) → remove k (insert k x d) ≡ remove k d
unfolding insert remove
remove-insert k x [] = ground (arith, eq_iff k k)
remove-insert k x ((j, y) ∷ d) = ground (arith, eq_iff j k, remove-insert k x d)

transmit-KeyedQueue :
    (m : Member) (sent : ℕ) (d : Dict (Member × ℕ))
    → KeyedQueue d
    → KeyedQueue (transmit (m.id, (m, sent)) d)
unfolding transmit
transmit-KeyedQueue m sent d v = elim (Bool-cases (leb max_transmits_per_update (sent + 1))) [
  | inl last ↦ rw last (rw (remove-insert m.id (m, sent + 1) d) (remove-KeyedQueue m.id d v))
  | inr more ↦ rw more (insert-KeyedQueue m (sent + 1) d (ground arith) v)
]

transmit_all-KeyedQueue :
    (qs : List Queued) (d : Dict (Member × ℕ))
    → KeyedQueue qs
    → KeyedQueue d
    → KeyedQueue (transmit_all qs d)
unfolding transmit_all
transmit_all-KeyedQueue [] d w v = v
transmit_all-KeyedQueue ((k, (m, sent)) ∷ qs) d w v =
    transmit_all-KeyedQueue qs _ w.2
      (subst (λ j. KeyedQueue (transmit (j, (m, sent)) d)) w.0 (transmit-KeyedQueue m sent d v))

insert_sorted-KeyedQueue :
    (q : Queued) (qs : List Queued)
    → KeyedQueue (q ∷ [])
    → KeyedQueue qs
    → KeyedQueue (insert_sorted q qs)
unfolding insert_sorted
insert_sorted-KeyedQueue q [] one v = one
insert_sorted-KeyedQueue q (x ∷ qs) one v = ground (arith, insert_sorted-KeyedQueue q qs one (v.2))

sort-KeyedQueue : (qs : List Queued) → KeyedQueue qs → KeyedQueue (sort qs)
unfolding sort
sort-KeyedQueue [] v = tt
sort-KeyedQueue (q ∷ qs) v =
    insert_sorted-KeyedQueue q (sort qs) (v.0, v.1, tt) (sort-KeyedQueue qs v.2)

take-KeyedQueue : (n : ℕ) (qs : List Queued) → KeyedQueue qs → KeyedQueue (take n qs)
take-KeyedQueue zero qs v = tt
take-KeyedQueue (suc n) [] v = tt
take-KeyedQueue (suc n) (q ∷ qs) v = (v.0, v.1, take-KeyedQueue n qs v.2)

-- Taking updates keeps the tables sound: what was sent for the last time is gone from the queue.
pub take_broadcasts-IsSound : (n : Node) → IsSound n → IsSound (take_broadcasts n).0
unfolding take_broadcasts
take_broadcasts-IsSound n v = record {
  members = v.members;
  queue =
      transmit_all-KeyedQueue (due n) n.broadcasts
        (take-KeyedQueue max_updates_per_message (sort n.broadcasts)
          (sort-KeyedQueue n.broadcasts v.queue))
        v.queue;
}

-- Every entry of the list was sent at least `k` times.
abbrev pub AllFrom : ℕ → List Queued → Type 0
AllFrom k [] = Unit
AllFrom k (q ∷ qs) = (k ≤ sent_count q) × AllFrom k qs

abbrev pub Ordered : List Queued → Type 0
Ordered [] = Unit
Ordered (q ∷ qs) = AllFrom (sent_count q) qs × Ordered qs

AllFrom-mono : (j k : ℕ) (qs : List Queued) → j ≤ k → AllFrom k qs → AllFrom j qs
AllFrom-mono j k [] h v = tt
AllFrom-mono j k (q ∷ qs) h v = (omega arith, AllFrom-mono j k qs h v.1)

insert_sorted-AllFrom :
    (k : ℕ) (q : Queued) (qs : List Queued)
    → k ≤ sent_count q
    → AllFrom k qs
    → AllFrom k (insert_sorted q qs)
unfolding insert_sorted
insert_sorted-AllFrom k q [] h v = (h, tt)
insert_sorted-AllFrom k q (x ∷ qs) h v = ground (arith, insert_sorted-AllFrom k q qs h v.1)

insert_sorted-Ordered : (q : Queued) (qs : List Queued) → Ordered qs → Ordered (insert_sorted q qs)
unfolding insert_sorted
insert_sorted-Ordered q [] v = (tt, tt)
insert_sorted-Ordered q (x ∷ qs) v = elim (Bool-cases (leb (sent_count q) (sent_count x))) [
  | inl first ↦
      let le = leb→le (sent_count q) (sent_count x) first in
      rw first ((le, AllFrom-mono (sent_count q) (sent_count x) qs le v.0), v)
  | inr later ↦
      rw later (
        insert_sorted-AllFrom (sent_count x) q qs (ground arith) v.0,
        insert_sorted-Ordered q qs v.1,
      )
]

sort-Ordered : (qs : List Queued) → Ordered (sort qs)
unfolding sort
sort-Ordered [] = tt
sort-Ordered (q ∷ qs) = insert_sorted-Ordered q (sort qs) (sort-Ordered qs)

insert_sorted-perm : (q : Queued) (qs : List Queued) → Perm (insert_sorted q qs) (q ∷ qs)
unfolding insert_sorted
insert_sorted-perm q [] = Perm.refl _
insert_sorted-perm q (x ∷ qs) = elim (Bool-cases (leb (sent_count q) (sent_count x))) [
  | inl first ↦ rw first (Perm.refl _)
  | inr later ↦ rw later (Perm.trans (Perm.cons x (insert_sorted-perm q qs)) (Perm.swap q x qs))
]

sort-perm : (qs : List Queued) → Perm (sort qs) qs
unfolding sort
sort-perm [] = Perm.refl _
sort-perm (q ∷ qs) = Perm.trans (insert_sorted-perm q (sort qs)) (Perm.cons q (sort-perm qs))

-- Every entry of the first list was sent no more often than any of the second.
abbrev pub NoMoreOften : List Queued → List Queued → Type 0
NoMoreOften [] rest = Unit
NoMoreOften (q ∷ qs) rest = AllFrom (sent_count q) rest × NoMoreOften qs rest

drop-AllFrom : (k n : ℕ) (qs : List Queued) → AllFrom k qs → AllFrom k (drop n qs)
drop-AllFrom k zero qs v = v
drop-AllFrom k (suc n) [] v = tt
drop-AllFrom k (suc n) (q ∷ qs) v = drop-AllFrom k n qs v.1

take-NoMoreOften : (n : ℕ) (qs : List Queued) → Ordered qs → NoMoreOften (take n qs) (drop n qs)
take-NoMoreOften zero qs v = tt
take-NoMoreOften (suc n) [] v = tt
take-NoMoreOften (suc n) (q ∷ qs) v =
    (drop-AllFrom (sent_count q) n qs v.0, take-NoMoreOften n qs v.1)

-- The updates that a message takes along are at most eight, they are part of the queue, and none
-- of them was sent more often than one that is left to wait.
pub take_broadcasts-least :
    (n : Node)
    → (waits : List Queued) × (length (take_broadcasts n).1 ≤ max_updates_per_message)
      × ((take_broadcasts n).1 ≡ map update_of (due n))
      × Perm (due n ++ waits) n.broadcasts
      × NoMoreOften (due n) waits
unfolding take_broadcasts
take_broadcasts-least n = (
  drop max_updates_per_message (sort n.broadcasts),
  omega (
    arith,
    length-map update_of (due n),
    length-take max_updates_per_message (sort n.broadcasts),
  ),
  refl,
  rw (take-append-drop max_updates_per_message (sort n.broadcasts)) (sort-perm n.broadcasts),
  take-NoMoreOften max_updates_per_message (sort n.broadcasts) (sort-Ordered n.broadcasts),
)
