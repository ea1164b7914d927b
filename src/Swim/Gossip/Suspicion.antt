-- ===== src/Swim/Gossip/Suspicion.antt =====
-- Suspicion timers: what one does when it ends, and a suspicion that has none.
use dssd.Prelude.{
  ◌<◌, ◌≡◌, ◌≢◌, refl, ◌∙◌, ◌⊎◌, inl, inr, true, Option, none, some, List, [], ◌∷◌, ◌++◌, String,
  Option-cases, Bool-cases, str_eq, str_eq→eq, eq_iff, eq_refl, lookup, lookup-insert, arith,
}
use dssd.Swim.Member.{State, alive, suspect, dead, severity, Member, supersedes}
use dssd.Swim.Gossip.{Node, set_member, mark, expire, merge, merge_other}
use dssd.Swim.Gossip.Lookup.{merge-foreign}
use dssd.Swim.Gossip.Sound.{IsSound, lookup-KeyedMembers, mark-IsSound, merge-IsSound}

severity-ne : (s : State) → s ≢ suspect → severity s ≢ 1
severity-ne alive h = omega arith
severity-ne suspect h = absurd (h refl)
severity-ne dead h = omega arith

-- The end of a suspicion timer changes nothing if the member is no longer suspect, or is at
-- another incarnation than the timer's.
pub expire-refuted :
    (t c : Member) (n : Node)
    → lookup t.id n.members ≡ some c
    → (c.state ≢ suspect) ⊎ (c.incarnation ≢ t.incarnation)
    → expire t n ≡ n
unfolding expire mark
expire-refuted t c n at old = rw at (ground (arith, severity-ne c.state))

-- The timer of a suspicion that stands declares the member dead, and queues the news.
pub expire-dead :
    (t c : Member) (n : Node)
    → lookup t.id n.members ≡ some c
    → c.id ≡ t.id
    → c.state ≡ suspect
    → c.incarnation ≡ t.incarnation
    → let n' = expire t n in
      (lookup t.id n'.members ≡ some (record c { state = dead }))
      × (lookup t.id n'.broadcasts ≡ some (record c { state = dead }, 0))
unfolding expire mark
expire-dead t c n at same bad now = rw at (
    ground (
      arith,
      eq_iff c.id t.id,
      lookup-insert c.id t.id (record c { state = dead }) n.members,
      lookup-insert c.id t.id (record c { state = dead }, 0) n.broadcasts,
    ))

-- News that a member is suspect, about a member that is unknown or not suspect and that the news
-- supersedes, is believed, and starts one timer for it.
pub suspicion_starts :
    (u : Member) (o : Option Member) (n : Node)
    → u.id ≢ n.id
    → u.state ≡ suspect
    → lookup u.id n.members ≡ o
    → ((c : Member) → o ≡ some c → (c.state ≢ suspect) × (supersedes u c ≡ true))
    → ((merge u n).timers ≡ n.timers ++ u ∷ []) × (lookup u.id (merge u n).members ≡ some u)
suspicion_starts u none n other bad at fresh =
    rw (merge-foreign u n other, at)
      (unfold merge_other set_member in
        rw at (ground (arith, lookup-insert u.id u.id u n.members, eq_refl u.id)))
suspicion_starts u (some c) n other bad at fresh =
    rw (merge-foreign u n other, at)
      (unfold merge_other set_member in
        rw at (
          ground (
            arith,
            fresh c refl,
            severity-ne c.state,
            lookup-insert u.id u.id u n.members,
            eq_refl u.id,
          )))

-- The timers, ended one after another.
pub expire_all : List Member → Node → Node
unfolding expire
expire_all [] n = n
expire_all (t ∷ ts) n = expire_all ts (expire t n)

-- Every timer for this member is of an earlier suspicion.
abbrev pub Earlier : Member → List Member → Type 0
Earlier u [] = Unit
Earlier u (t ∷ ts) = (t.id ≡ u.id → t.incarnation < u.incarnation) × Earlier u ts

-- Another member's timer leaves this one's view alone.
expire-other :
    (t : Member) (n : Node) (j : String)
    → t.id ≢ j
    → IsSound n
    → lookup j (expire t n).members ≡ lookup j n.members
unfolding expire mark set_member
expire-other t n j other v = elim (Option-cases (lookup t.id n.members)) [
  | inl e ↦ rw e
  | inr (c, e) ↦
      let same : c.id ≡ t.id = (lookup-KeyedMembers n.id t.id n.members c v.members e).0 in
      rw e
        (ground (arith, eq_iff c.id j, lookup-insert c.id j (record c { state = dead }) n.members))
]

stays_suspect :
    (u : Member) (ts : List Member) (n : Node)
    → IsSound n
    → Earlier u ts
    → lookup u.id n.members ≡ some u
    → lookup u.id (expire_all ts n).members ≡ some u
unfolding expire_all
stays_suspect u [] n v early at = at
stays_suspect u (t ∷ ts) n v early at =
    stays_suspect u ts (expire t n)
      (unfold expire in mark-IsSound t.id dead suspect (some t.incarnation) n v) early.1 kept
  where
    kept : lookup u.id (expire t n).members ≡ some u
    kept = elim (Bool-cases (str_eq t.id u.id)) [
      | inl own ↦
          let e = str_eq→eq t.id u.id own in
          rw (expire-refuted t u n (rw e at) (inr λ f. absurd (omega (arith, early.0 e)))) at
      | inr other ↦ expire-other t n u.id (λ e. ground (arith, eq_iff t.id u.id)) v ∙ at
    ]

-- If a node with sound tables holds a member suspect, and learns that it is suspect at a later
-- incarnation than every timer running for it, no timer is started: when every running timer has
-- ended, the node still holds the member suspect.
pub suspicion_stuck :
    (u c : Member) (n : Node)
    → IsSound n
    → u.id ≢ n.id
    → lookup u.id n.members ≡ some c
    → c.state ≡ suspect
    → u.state ≡ suspect
    → c.incarnation < u.incarnation
    → Earlier u n.timers
    → let n' = merge u n in
      (n'.timers ≡ n.timers)
      × (lookup u.id n'.members ≡ some u)
      × (lookup u.id (expire_all n'.timers n').members ≡ some u)
suspicion_stuck u c n v other at was bad newer early =
    let now = merged in
    (
      now.0,
      now.1,
      stays_suspect u (merge u n).timers (merge u n) (merge-IsSound u n v) (rw now.0 early) now.1,
    )
  where
    merged : ((merge u n).timers ≡ n.timers) × (lookup u.id (merge u n).members ≡ some u)
    merged =
        rw (merge-foreign u n other, at)
          (unfold merge_other set_member supersedes in
            rw at (ground (arith, lookup-insert u.id u.id u n.members, eq_refl u.id)))
