-- ===== src/Swim/Node/Timers.antt =====
-- swim.py: what a suspicion timer does when it ends, whatever has come in between.
use mathlib.Core.List.{Memᴰ}
use dssd.Prelude.{
  ◌⊎◌, sym, subst, ◌≡◌, refl, inl, inr, true, false, none, some, List, [], ◌∷◌, ◌++◌, Bool, ◌&&◌,
  ◌==◌, lookup, if◌then◌else◌, Option-cases, Bool-cases, arith,
}
use dssd.Swim.Member.{State, suspect, dead, same_state, Member}
use dssd.Swim.Gossip.{Node, mark, expire}
use dssd.Swim.Gossip.Sound.{IsSound, lookup-KeyedMembers}
use dssd.Swim.Gossip.Suspicion.{expire-dead}
use dssd.Swim.Node.Reach.{Reach, here, later, Reach-Grows}
use dssd.Swim.Node.Runs.{Step-timer}

-- The node still holds the timer's member suspect, at the timer's incarnation.
abbrev pub stands : Member → Node → Bool
stands t n = elim (lookup t.id n.members) [
  | none ↦ false
  | some c ↦ same_state c.state suspect && c.incarnation == t.incarnation
]

-- The member is dead, and the news is queued.
pub record Dies (t : Member) (n : Node) : Type 0 where
  pub held : Member
  pub was : lookup t.id n.members ≡ some held
  pub dies : lookup t.id (expire t n).members ≡ some (record held { state = dead })
  pub queued : lookup t.id (expire t n).broadcasts ≡ some (record held { state = dead }, 0)

-- At its end the timer declares the member dead if the suspicion stands, and else does nothing.
abbrev pub Decides : Member → Node → Type 0
Decides t n = if stands t n then Dies t n else expire t n ≡ n

expire-idle : (t : Member) (n : Node) → stands t n ≡ false → expire t n ≡ n
unfolding expire mark
expire-idle t n h = elim (Option-cases (lookup t.id n.members)) [
  | inl e ↦ rw e refl
  | inr (c, e) ↦ rw e (ground (arith, e, h))
]

same_state-suspect : (s : State) → same_state s suspect ≡ true → s ≡ suspect
same_state-suspect s h = ground arith

expire-Dies : (t : Member) (n : Node) → IsSound n → stands t n ≡ true → Dies t n
expire-Dies t n v h = elim (Option-cases (lookup t.id n.members)) [
  | inl e ↦ ground (arith, e, h)
  | inr (c, e) ↦
      let same = (lookup-KeyedMembers n.id t.id n.members c v.members e).0 in
      let d =
        expire-dead t c n e same (same_state-suspect c.state (ground (arith, e, h)))
          (ground (arith, e, h)) in
      record { held = c; was = e; dies = d.0; queued = d.1 }
]

pub expire-Decides : (t : Member) (n : Node) → IsSound n → Decides t n
expire-Decides t n v = elim (Bool-cases (stands t n)) [
  | inl yes' ↦ rw yes' (expire-Dies t n v yes')
  | inr no' ↦ rw no' (expire-idle t n no')
]

-- The timer ends after a run of the node.
Reach-Decides :
    (t : Member) (n m : Node) (before after : List Member)
    → IsSound n
    → Reach n m
    → Decides t (record m { timers = before ++ after })
Reach-Decides t n m before after v run =
    let w = (Reach-Grows run v).sound in
    expire-Decides t (record m { timers = before ++ after })
      (record { members = w.members; queue = w.queue })

-- On the way from `n` to `m` the timer has ended, in the node `then`, and decided.
pub record Ended (t : Member) (n m : Node) : Type 0 where
  pub at_end : Node
  pub before : List Member
  pub after : List Member
  pub run : Reach n at_end
  pub running : at_end.timers ≡ before ++ t ∷ after
  pub decides : Decides t (record at_end { timers = before ++ after })
  pub rest : Reach (expire t (record at_end { timers = before ++ after })) m

-- The timer runs still, or it has ended.
abbrev pub RunsOrEnded : Member → Node → Node → Type 0
RunsOrEnded t n m = Memᴰ t m.timers ⊎ Ended t n m

pub Reach-RunsOrEnded :
    {n m : Node} (t : Member) → IsSound n → Memᴰ t n.timers → Reach n m → RunsOrEnded t n m
Reach-RunsOrEnded t v h here = inl h
Reach-RunsOrEnded {n} {m} t v h (later {m = k} run step) = elim (Reach-RunsOrEnded t v h run) [
  | inr d ↦ inr (record {
    at_end = d.at_end;
    before = d.before;
    after = d.after;
    run = d.run;
    running = d.running;
    decides = d.decides;
    rest = later d.rest step;
  })
  | inl r ↦ elim (Step-timer t step r) [
    | inl still ↦ inl still
    | inr e ↦ inr (record {
      at_end = k;
      before = e.before;
      after = e.after;
      run = run;
      running = e.running;
      decides = Reach-Decides t n k e.before e.after v run;
      rest =
          subst (Reach (expire t (record k { timers = e.before ++ e.after }))) (sym e.ends_in) here;
    })
  ]
]

pub mem-last : (t : Member) (xs ys : List Member) → ys ≡ xs ++ t ∷ [] → Memᴰ t ys
mem-last t xs ys e = subst (Memᴰ t) (sym e) (mem-end t xs)
  where
    mem-end : (t : Member) (xs : List Member) → Memᴰ t (xs ++ t ∷ [])
    mem-end t [] = Memᴰ.head refl
    mem-end t (x ∷ xs) = Memᴰ.tail (mem-end t xs)
