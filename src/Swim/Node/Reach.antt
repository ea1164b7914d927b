-- ===== src/Swim/Node/Reach.antt =====
-- A SWIM node as a step relation over its messages, timers and requests, and what every run keeps.
use dssd.Prelude.{
  ℕ, ◌+◌, ◌≤◌, ◌≡◌, ◌≢◌, refl, sym, ◌∙◌, inl, inr, String, Option, none, some, List, [], ◌∷◌, ◌++◌,
  Option-cases, Bool-cases, lookup, arith,
}
use dssd.Swim.Member.{State, alive, suspect, dead, same_state, Member}
use dssd.Swim.Gossip.{
  Node, set_member, mark, mark_current, expire, refute, merge_other, merge, merge_all,
  take_broadcasts,
}
use dssd.Swim.Gossip.Sound.{
  IsSound, lookup-KeyedMembers, set_member-IsSound, mark-IsSound, merge-IsSound,
}
use dssd.Swim.Gossip.Lookup.{merge-id}
use dssd.Swim.Gossip.Queue.{take_broadcasts-IsSound}
use dssd.Swim.Node.{
  MsgType, ping, ping_req, ack, join, join_ack, Message, begin_request, end_request, respond,
  handle, probe, probe_failed, resurrect,
}

pub data Step (n : Node) : Node → Type 0 where
  handles : (msg : Message) → Step n (handle msg n).0
  probes : (target : Member) → Step n (probe target n).0
  suspects : (target : Member) → Step n (probe_failed target n)
  requests :
      (addr : String) (type : MsgType) (updates : List Member) (target_addr : String)
      → Step n (begin_request addr type updates target_addr n).0
  ends : (seq : ℕ) → Step n (end_request seq n).0
  resurrects : (target : Member) → Step n (resurrect target n)
  expires :
      (before : List Member) (t : Member) (after : List Member)
      → n.timers ≡ before ++ t ∷ after
      → Step n (expire t (record n { timers = before ++ after }))

pub data Reach (n : Node) : Node → Type 0 where
  here : Reach n n
  later : {m o : Node} → Reach n m → Step m o → Reach n o

-- What a run keeps: sound tables, the node's own id, and an incarnation that never falls.
pub record Grows (n m : Node) : Type 0 where
  pub sound : IsSound m
  pub own : m.id ≡ n.id
  pub incarnation : n.incarnation ≤ m.incarnation

pub merge-incarnation : (u : Member) (n : Node) → n.incarnation ≤ (merge u n).incarnation
unfolding merge refute merge_other set_member
merge-incarnation u n = ground arith

merge-Grows : (u : Member) (n : Node) → IsSound n → Grows n (merge u n)
merge-Grows u n v = record {
  sound = merge-IsSound u n v;
  own = merge-id u n;
  incarnation = merge-incarnation u n;
}

Grows-trans : (n m o : Node) → Grows n m → Grows m o → Grows n o
Grows-trans n m o a b = record {
  sound = b.sound;
  own = b.own ∙ a.own;
  incarnation = omega (arith, a.incarnation, b.incarnation);
}

Grows-refl : (n : Node) → IsSound n → Grows n n
Grows-refl n v = record { sound = v; own = refl; incarnation = omega arith }

merge_all-Grows : (us : List Member) (n : Node) → IsSound n → Grows n (merge_all us n)
unfolding merge_all
merge_all-Grows [] n v = Grows-refl n v
merge_all-Grows (u ∷ us) n v =
    Grows-trans n (merge u n) (merge_all us (merge u n)) (merge-Grows u n v)
      (merge_all-Grows us (merge u n) (merge-IsSound u n v))

take_broadcasts-Grows : (n : Node) → IsSound n → Grows n (take_broadcasts n).0
take_broadcasts-Grows n v = record {
  sound = take_broadcasts-IsSound n v;
  own = unfold take_broadcasts in refl;
  incarnation = unfold take_broadcasts in omega arith;
}

respond-Grows :
    (type : MsgType) (msg : Message) (n : Node) → IsSound n → Grows n (respond type msg n).0
unfolding respond
respond-Grows ping msg n v = take_broadcasts-Grows n v
respond-Grows join msg n v = Grows-refl n v
respond-Grows ping_req msg n v = Grows-refl n v
respond-Grows ack msg n v = record {
  sound = record { members = v.members; queue = v.queue };
  own = refl;
  incarnation = omega arith;
}
respond-Grows join_ack msg n v = record {
  sound = record { members = v.members; queue = v.queue };
  own = refl;
  incarnation = omega arith;
}

-- `mark` leaves the node's own id and incarnation alone.
mark-own :
    (id : String) (new_state from_state : State) (i : Option ℕ) (n : Node)
    → ((mark id new_state from_state i n).id ≡ n.id)
      × ((mark id new_state from_state i n).incarnation ≡ n.incarnation)
unfolding mark mark_current set_member
mark-own id new_state from_state i n = ground arith

mark-Grows :
    (id : String) (new_state from_state : State) (i : Option ℕ) (n : Node)
    → IsSound n
    → Grows n (mark id new_state from_state i n)
mark-Grows id new_state from_state i n v = record {
  sound = mark-IsSound id new_state from_state i n v;
  own = (mark-own id new_state from_state i n).0;
  incarnation = omega (arith, (mark-own id new_state from_state i n).1);
}

set_member-Grows : (m : Member) (n : Node) → m.id ≢ n.id → IsSound n → Grows n (set_member m n)
set_member-Grows m n other v = record {
  sound = set_member-IsSound m n other v;
  own = unfold set_member in refl;
  incarnation = unfold set_member in omega arith;
}

resurrect-Grows : (target : Member) (n : Node) → IsSound n → Grows n (resurrect target n)
unfolding resurrect
resurrect-Grows target n v = elim (Option-cases (lookup target.id n.members)) [
  | inl e ↦ rw e (Grows-refl n v)
  | inr (c, e) ↦
      let (same, other) = lookup-KeyedMembers n.id target.id n.members c v.members e in
      let alive' : Member = record c { state = alive; incarnation = c.incarnation + 1 } in
      rw e (elim (Bool-cases (same_state c.state dead)) [
        | inl was ↦ rw was (set_member-Grows alive' n (λ f. other (sym same ∙ f)) v)
        | inr not' ↦ rw not' (Grows-refl n v)
      ])
]

begin_request-Grows :
    (addr : String) (type : MsgType) (updates : List Member) (target_addr : String) (n : Node)
    → IsSound n
    → Grows n (begin_request addr type updates target_addr n).0
unfolding begin_request
begin_request-Grows addr type updates target_addr n v = record {
  sound = record { members = v.members; queue = v.queue };
  own = refl;
  incarnation = omega arith;
}

pub Step-Grows : {n m : Node} → Step n m → IsSound n → Grows n m
Step-Grows {n} (handles msg) v =
    let first = merge-Grows msg.sender n v in
    let second = merge_all-Grows msg.updates (merge msg.sender n) first.sound in
    unfold handle in
    Grows-trans n _ _ (Grows-trans n _ _ first second)
      (respond-Grows msg.type msg (merge_all msg.updates (merge msg.sender n)) second.sound)
Step-Grows {n} (probes target) v =
    let taken = take_broadcasts-Grows n v in
    unfold probe in
    Grows-trans n _ _ taken (
      begin_request-Grows target.addr ping (take_broadcasts n).1 "" (take_broadcasts n).0
        taken.sound)
Step-Grows {n} (suspects target) v =
    unfold probe_failed in mark-Grows target.id suspect alive none n v
Step-Grows {n} (requests addr type updates target_addr) v =
    begin_request-Grows addr type updates target_addr n v
Step-Grows {n} (ends seq) v =
    unfold end_request in
    record {
      sound = record { members = v.members; queue = v.queue };
      own = refl;
      incarnation = omega arith;
    }
Step-Grows {n} (resurrects target) v = resurrect-Grows target n v
Step-Grows {n} (expires before t after e) v =
    let m : Node = record n { timers = before ++ after } in
    let g =
      mark-Grows t.id dead suspect (some t.incarnation) m
        (record { members = v.members; queue = v.queue }) in
    unfold expire in record { sound = g.sound; own = g.own; incarnation = g.incarnation }

-- Along every run of a SWIM node from sound tables: each member stands under its own id and the
-- node is not among them, each queued update stands under its member's id and was sent fewer than
-- five times, the node keeps its id, and its incarnation never falls.
pub Reach-Grows : {n m : Node} → Reach n m → IsSound n → Grows n m
Reach-Grows {n} here v = Grows-refl n v
Reach-Grows {n} {m} (later {m = k} run step) v =
    let before = Reach-Grows run v in Grows-trans n k m before (Step-Grows step before.sound)
