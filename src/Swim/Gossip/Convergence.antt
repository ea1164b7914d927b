-- ===== src/Swim/Gossip/Convergence.antt =====
-- Gossip about members that are not dead: what a node believes does not depend on the order in
-- which the updates arrived.
use native.Mathlib.Nat.{ℕ_set}
use mathlib.Core.Logic.{∥∥₁_elim}
use mathlib.Core.List.{Perm, Permᴰ}
use mathlib.Core.Path.{ap₂}
use dssd.Prelude.{
  ℕ, ◌+◌, ◌*◌, max, ◌≡◌, ◌≢◌, refl, sym, ap, ◌∙◌, String, Bool, true, false, Option, none, some,
  List, [], ◌∷◌, str_eq, if◌then◌else◌, lookup, arith,
}
use dssd.Swim.Member.{State, alive, suspect, dead, severity, Member}
use dssd.Swim.Member.Order.{rank, supersedes-rank}
use dssd.Swim.Gossip.{Node, merge, merge_all}
use dssd.Swim.Gossip.Lookup.{absorb, lookup-merge, merge-id}

-- How new a view is; a member that is not known counts 0.
abbrev pub view_rank : Option Member → ℕ
view_rank none = 0
view_rank (some m) = rank m + 1

abbrev pub IsLive : Option Member → Type 0
IsLive none = Unit
IsLive (some m) = m.state ≢ dead

abbrev pub AllLive : List Member → Type 0
AllLive [] = Unit
AllLive (u ∷ us) = (u.state ≢ dead) × AllLive us

-- The newer of a rank and an update about member `j`.
abbrev pub newer : (j : String) → ℕ → Member → ℕ
newer j k u = if str_eq u.id j then max k (rank u + 1) else k

-- The newest of these updates about member `j`, and of `k`.
pub newest : (j : String) → ℕ → List Member → ℕ
newest j k [] = k
newest j k (u ∷ us) = newest j (newer j k u) us

absorb-rank :
    (u : Member) (o : Option Member)
    → u.state ≢ dead
    → IsLive o
    → (view_rank (absorb u o) ≡ max (view_rank o) (rank u + 1)) × IsLive (absorb u o)
unfolding absorb
absorb-rank u none hu ho = ground arith
absorb-rank u (some c) hu ho = ground (arith, supersedes-rank u c hu ho)

merge-rank :
    (u : Member) (n : Node) (j : String)
    → u.state ≢ dead
    → j ≢ n.id
    → IsLive (lookup j n.members)
    → (view_rank (lookup j (merge u n).members) ≡ (
        if str_eq u.id j
        then max (view_rank (lookup j n.members)) (rank u + 1)
        else view_rank (lookup j n.members)))
      × IsLive (lookup j (merge u n).members)
merge-rank u n j hu other live = rw (lookup-merge u n j other) (choose (str_eq u.id j))
  where
    choose :
        (b : Bool)
        → (view_rank (if b then absorb u (lookup j n.members) else lookup j n.members) ≡ (
            if b
            then max (view_rank (lookup j n.members)) (rank u + 1)
            else view_rank (lookup j n.members)))
          × IsLive (if b then absorb u (lookup j n.members) else lookup j n.members)
    choose true = absorb-rank u (lookup j n.members) hu live
    choose false = (refl, live)

-- After any live gossip a node's view of another member is the newest of what it has heard.
merge_all-rank :
    (us : List Member) (n : Node) (j : String)
    → AllLive us
    → j ≢ n.id
    → IsLive (lookup j n.members)
    → (view_rank (lookup j (merge_all us n).members) ≡ newest j (view_rank (lookup j n.members)) us)
      × IsLive (lookup j (merge_all us n).members)
unfolding merge_all newest
merge_all-rank [] n j live other known = (refl, known)
merge_all-rank (u ∷ us) n j live other known =
    let (now, known') = merge-rank u n j live.0 other known in
    let (rest, done) = merge_all-rank us (merge u n) j live.1 (rw merge-id other) known' in
    (rest ∙ ap (λ k. newest j k us) now, done)

newer_comm : (j : String) (k : ℕ) (a b : Member) → newer j (newer j k a) b ≡ newer j (newer j k b) a
newer_comm j k a b = ground arith

newest-perm :
    (j : String) {us vs : List Member} → Permᴰ us vs → (k : ℕ) → newest j k us ≡ newest j k vs
unfolding newest
newest-perm j Permᴰ.nil k = refl
newest-perm j (Permᴰ.cons {a} {l₂ = l} e p) k =
    newest-perm j p (newer j k a) ∙ ap (λ m. newest j (newer j k m) l) e
newest-perm j (Permᴰ.swap {a} {b} {l = l} e f) k =
    ap (λ i. newest j i l) (newer_comm j k a b)
    ∙ ap₂ (λ x y. newest j (newer j (newer j k y) x) l) e f
newest-perm j (Permᴰ.trans p q) k = newest-perm j p k ∙ newest-perm j q k

-- What a node believes of a member: its state and incarnation.
abbrev pub news : Option Member → Option (State × ℕ)
news none = none
news (some m) = some (m.state, m.incarnation)

rank-injective :
    (s t : State) (i j : ℕ)
    → s ≢ dead
    → t ≢ dead
    → 2 * i + severity s ≡ 2 * j + severity t
    → (s ≡ t) × (i ≡ j)
rank-injective alive alive i j hs ht e = (refl, omega arith)
rank-injective suspect suspect i j hs ht e = (refl, omega arith)
rank-injective alive suspect i j hs ht e = absurd (omega arith)
rank-injective suspect alive i j hs ht e = absurd (omega arith)
rank-injective dead t i j hs ht e = absurd (hs refl)
rank-injective s dead i j hs ht e = absurd (ht refl)

news-rank :
    (o p : Option Member) → IsLive o → IsLive p → view_rank o ≡ view_rank p → news o ≡ news p
news-rank none none ho hp e = refl
news-rank none (some b) ho hp e = absurd (omega arith)
news-rank (some a) none ho hp e = absurd (omega arith)
news-rank (some a) (some b) ho hp e =
    let (s, i) = rank-injective a.state b.state a.incarnation b.incarnation ho hp (omega arith) in
    ap₂ (λ x y. some (x, y)) s i

-- Two nodes that believe the same, not dead, of a third member, and hear the same updates, none
-- of them dead, in any two orders, believe the same state and incarnation of it afterwards.
pub merge_all-perm :
    (us vs : List Member) (n m : Node) (j : String)
    → Perm us vs
    → AllLive us
    → AllLive vs
    → j ≢ n.id
    → j ≢ m.id
    → IsLive (lookup j n.members)
    → lookup j n.members ≡ lookup j m.members
    → news (lookup j (merge_all us n).members) ≡ news (lookup j (merge_all vs m).members)
merge_all-perm us vs n m j perm lu lv jn jm live same =
    let (ru, du) = merge_all-rank us n j lu jn live in
    let (rv, dv) = merge_all-rank vs m j lv jm (rw (← same) live) in
    news-rank _ _ du dv (
      ru
      ∙ ∥∥₁_elim perm (ℕ_set _ _) (λ d. newest-perm j d (view_rank (lookup j n.members)))
      ∙ ap (λ o. newest j (view_rank o) vs) same
      ∙ sym rv)
