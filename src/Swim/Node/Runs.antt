-- ===== src/Swim/Node/Runs.antt =====
-- swim.py: a suspicion timer is never lost; it runs until it ends.
use mathlib.Core.List.{Memᴰ, append_assoc, append-nil}
use dssd.Prelude.{
  ◌≡◌, refl, sym, ap, subst, ◌∙◌, ◌⊎◌, inl, inr, Option, none, some, List, [], ◌∷◌, ◌++◌, lookup,
  arith, Bool, true, false, if◌then◌else◌, Bool-cases, ◌&&◌, ℕ, String,
}
use dssd.Swim.Member.{State, suspect, alive, dead, Member, same_state}
use dssd.Swim.Gossip.{
  Node, newly_suspect, set_member, mark, mark_current, expire, refute, merge, merge_other,
  merge_all, take_broadcasts,
}
use dssd.Swim.Node.{
  MsgType, Message, ping, join, ping_req, ack, join_ack, respond, handle, probe, probe_failed,
  begin_request, end_request, resurrect, resurrect_current,
}
use dssd.Swim.Node.Reach.{Step, handles, probes, suspects, requests, ends, resurrects, expires}

-- The timers of `m` are those of `n` and perhaps more.
pub record Extends (n m : Node) : Type 0 where
  pub more : List Member
  pub same : m.timers ≡ n.timers ++ more

Extends-same : (n m : Node) → m.timers ≡ n.timers → Extends n m
Extends-same n m e = record { more = []; same = e ∙ sym (append-nil n.timers) }

Extends-trans : (n m o : Node) → Extends n m → Extends m o → Extends n o
Extends-trans n m o a b = record {
  more = a.more ++ b.more;
  same = b.same ∙ ap (λ l. l ++ b.more) a.same ∙ append_assoc n.timers a.more b.more;
}

set_member-Extends : (m : Member) (n : Node) → Extends n (set_member m n)
unfolding set_member
set_member-Extends m n =
    elim (Bool-cases (same_state m.state suspect && newly_suspect (lookup m.id n.members))) [
      | inl yes' ↦ record { more = m ∷ []; same = rw yes' refl }
      | inr no' ↦ Extends-same n _ (rw no' refl)
    ]

chosen :
    (b : Bool) (n : Node) (x y : Node) → Extends n x → Extends n y → Extends n (if b then x else y)
chosen true n x y h k = h
chosen false n x y h k = k

mark_current-Extends :
    (id : String) (new_state from_state : State) (i : Option ℕ) (o : Option Member) (n : Node)
    → Extends n (mark_current new_state from_state i o n)
unfolding mark_current
mark_current-Extends id new_state from_state i none n = Extends-same n n refl
mark_current-Extends id new_state from_state i (some c) n =
    chosen _ n _ _ (Extends-same n n refl) (
      chosen _ n _ _ (Extends-same n n refl)
        (set_member-Extends (record c { state = new_state }) n))

merge_other-Extends : (u : Member) (o : Option Member) (n : Node) → Extends n (merge_other u o n)
unfolding merge_other
merge_other-Extends u none n = chosen _ n _ _ (set_member-Extends u n) (Extends-same n n refl)
merge_other-Extends u (some c) n = chosen _ n _ _ (set_member-Extends u n) (Extends-same n n refl)

refute-Extends : (u : Member) (n : Node) → Extends n (refute u n)
unfolding refute
refute-Extends u n = Extends-same n (refute u n) (ground arith)

merge-Extends : (u : Member) (n : Node) → Extends n (merge u n)
unfolding merge
merge-Extends u n = chosen _ n _ _ (refute-Extends u n) (merge_other-Extends u _ n)

merge_all-Extends : (us : List Member) (n : Node) → Extends n (merge_all us n)
unfolding merge_all
merge_all-Extends [] n = Extends-same n n refl
merge_all-Extends (u ∷ us) n =
    Extends-trans n (merge u n) _ (merge-Extends u n) (merge_all-Extends us (merge u n))

respond-Extends : (type : MsgType) (msg : Message) (n : Node) → Extends n (respond type msg n).0
unfolding respond take_broadcasts
respond-Extends ping msg n = Extends-same n _ refl
respond-Extends join msg n = Extends-same n _ refl
respond-Extends ping_req msg n = Extends-same n _ refl
respond-Extends ack msg n = Extends-same n _ refl
respond-Extends join_ack msg n = Extends-same n _ refl

resurrect_current-Extends : (o : Option Member) (n : Node) → Extends n (resurrect_current o n)
unfolding resurrect_current
resurrect_current-Extends none n = Extends-same n n refl
resurrect_current-Extends (some c) n =
    chosen _ n _ _ (set_member-Extends _ n) (Extends-same n n refl)

-- The timers after the end of one of them.
expire-Extends : (t : Member) (n : Node) → Extends n (expire t n)
unfolding expire mark
expire-Extends t n =
    mark_current-Extends t.id dead suspect (some t.incarnation) (lookup t.id n.members) n

mem-append : (t : Member) (xs ys : List Member) → Memᴰ t xs → Memᴰ t (xs ++ ys)
mem-append t [] ys h = elim h [ ]
mem-append t (x ∷ xs) ys (Memᴰ.head e) = Memᴰ.head e
mem-append t (x ∷ xs) ys (Memᴰ.tail h) = Memᴰ.tail (mem-append t xs ys h)

-- Whoever stands in the list is the one taken out, or stands in the rest.
mem-rest :
    (t x : Member) (before after : List Member)
    → Memᴰ t (before ++ x ∷ after)
    → (t ≡ x) ⊎ Memᴰ t (before ++ after)
mem-rest t x [] after (Memᴰ.head e) = inl e
mem-rest t x [] after (Memᴰ.tail h) = inr h
mem-rest t x (y ∷ before) after (Memᴰ.head e) = inr (Memᴰ.head e)
mem-rest t x (y ∷ before) after (Memᴰ.tail h) = elim (mem-rest t x before after h) [
  | inl e ↦ inl e
  | inr k ↦ inr (Memᴰ.tail k)
]

Extends-mem : (t : Member) (n m : Node) → Extends n m → Memᴰ t n.timers → Memᴰ t m.timers
Extends-mem t n m v h = subst (Memᴰ t) (sym v.same) (mem-append t n.timers v.more h)

-- The end of the timer `t` of the node `k`.
pub record EndsAt (t : Member) (k m : Node) : Type 0 where
  pub before : List Member
  pub after : List Member
  pub running : k.timers ≡ before ++ t ∷ after
  pub ends_in : m ≡ expire t (record k { timers = before ++ after })

-- A step leaves the timer running, or is its end.
pub Step-timer :
    {n m : Node} (t : Member) → Step n m → Memᴰ t n.timers → Memᴰ t m.timers ⊎ EndsAt t n m
unfolding handle probe probe_failed mark begin_request end_request resurrect take_broadcasts
Step-timer {n} {m} t (handles msg) h = inl (
    Extends-mem t n m
      (Extends-trans n _ _
        (Extends-trans n _ _ (merge-Extends msg.sender n) (merge_all-Extends msg.updates _))
        (respond-Extends msg.type msg _))
      h)
Step-timer t (probes target) h = inl h
Step-timer {n} {m} t (suspects target) h = inl (
    Extends-mem t n m
      (mark_current-Extends target.id suspect alive none (lookup target.id n.members) n) h)
Step-timer t (requests addr type updates target_addr) h = inl h
Step-timer t (ends seq) h = inl h
Step-timer {n} {m} t (resurrects target) h =
    inl (Extends-mem t n m (resurrect_current-Extends (lookup target.id n.members) n) h)
Step-timer {n} {m} t (expires before x after e) h =
    elim (mem-rest t x before after (subst (Memᴰ t) e h)) [
      | inl same ↦ inr (record {
        before = before;
        after = after;
        running = e ∙ ap (λ y. before ++ y ∷ after) (sym same);
        ends_in = ap (λ y. expire y (record n { timers = before ++ after })) (sym same);
      })
      | inr rest ↦
          inl (Extends-mem t (record n { timers = before ++ after }) m (expire-Extends x _) rest)
    ]
