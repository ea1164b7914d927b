-- ===== src/Playground/World/Total.antt =====
-- playground.py, `_leader_of` and `snapshot`: in a world in which every node has every shard, the
-- parts of the report never raise.
use mathlib.Core.List.{Memᴰ}
use dssd.Prelude.{
  ℕ, ◌≡◌, refl, subst, sym, ◌⊎◌, inl, inr, String, true, Option, none, some, List, [], ◌∷◌,
  contains, ltb, eq_refl, if◌then◌else◌, Bool-cases, List-cases, Dict, arith,
}
use dssd.Raft.State.{is_leader}
use dssd.Shard.State.{ShardStateMachine}
use dssd.Playground.Consensus.{max_pair}
use dssd.Playground.Consensus.Leader.{Booted, Lists-leaders, max_pair-listed}
use dssd.Playground.World.{World, shard_at, raft_at, leader_of}
use dssd.Playground.World.Report.{
  ShardReport, freshest, source, agents_of, report_shard, report_shards, leads_of, leads_all,
}

module _ {F : Type 0} where
  -- Each of these nodes has this shard.
  unfoldable pub Hosts : (sid : String) → List String → World F → Type 0
  Hosts sid ns w =
      (n : String) → contains ns n ≡ true → (s : ShardStateMachine F) × (shard_at n sid w ≡ some s)

  pub Hosts-first :
      (sid n : String) (ns : List String) (w : World F)
      → Hosts sid (n ∷ ns) w
      → (s : ShardStateMachine F) × (shard_at n sid w ≡ some s)
  unfolding Hosts
  Hosts-first sid n ns w h = h n (ground (arith, eq_refl n))

  pub Hosts-rest :
      (sid n : String) (ns : List String) (w : World F) → Hosts sid (n ∷ ns) w → Hosts sid ns w
  unfolding Hosts
  Hosts-rest sid n ns w h m listed = h m (ground arith)

  Hosts-Booted :
      (sid : String) (w : World F)
      → Hosts sid w.ids w
      → Booted w.ids (λ n. raft_at sid n w) w.cluster.net.down
  unfolding Hosts raft_at
  Hosts-Booted sid w h = record {
    nodes = λ n listed. let (s, e) = h n listed in (s.raft, rw (raft_at, e) refl);
  }

  -- The leader, if there is one, is a node of the world.
  leader_of-works :
      (sid : String) (w : World F)
      → Hosts sid w.ids w
      → (leader_of sid w ≡ some none)
        ⊎ ((p : ℕ × String) × (leader_of sid w ≡ some (some p)) × (contains w.ids p.1 ≡ true))
  unfolding leader_of
  leader_of-works sid w h =
      let v =
        Lists-leaders w.ids (λ n. raft_at sid n w) w.cluster.net.down (Hosts-Booted sid w h) in
      elim (List-cases v.found) [
        | inl nobody ↦ inl (rw (leader_of, v.returns, nobody) refl)
        | inr (p, ps, e) ↦ inr (
          max_pair p ps,
          rw (leader_of, v.returns, e) refl,
          (v.sound _ (subst (Memᴰ (max_pair p ps)) (sym e) (max_pair-listed p ps))).listed,
        )
      ]

  freshest-works :
      (best : Option (ShardStateMachine F)) (sid : String) (ns : List String) (w : World F)
      → Hosts sid ns w
      → (s : Option (ShardStateMachine F)) × (freshest best sid ns w ≡ some s)
  unfolding freshest
  freshest-works best sid [] w h = (best, refl)
  freshest-works none sid (n ∷ ns) w h =
      let (s, e) = Hosts-first sid n ns w h in
      elim (Bool-cases (contains w.cluster.net.down n)) [
        | inl off ↦ rw (freshest, off) (freshest-works none sid ns w (Hosts-rest sid n ns w h))
        | inr on ↦ rw (freshest, on, e) (freshest-works (some s) sid ns w (Hosts-rest sid n ns w h))
      ]
  freshest-works (some b) sid (n ∷ ns) w h =
      let (s, e) = Hosts-first sid n ns w h in
      let rest : (o : Option (ShardStateMachine F))
          → (t : Option (ShardStateMachine F)) × (freshest o sid ns w ≡ some t) =
        λ o. freshest-works o sid ns w (Hosts-rest sid n ns w h) in
      elim (Bool-cases (contains w.cluster.net.down n)) [
        | inl off ↦ rw (freshest, off) (rest (some b))
        | inr on ↦ elim (Bool-cases (ltb b.raft.last_applied s.raft.last_applied)) [
          | inl fresher ↦ rw (freshest, on, e, fresher) (rest (some s))
          | inr older ↦ rw (freshest, on, e, older) (rest (some b))
        ]
      ]

  report_shard-of_source :
      (sid : String) (w : World F) (l : Option (ℕ × String)) (s : Option (ShardStateMachine F))
      → leader_of sid w ≡ some l
      → source sid l w ≡ some s
      → (r : ShardReport F) × (report_shard sid w ≡ some r)
  unfolding report_shard
  report_shard-of_source sid w l s led shown =
      (record { id = sid; leader = l; agents = agents_of s }, rw (report_shard, led, shown) refl)

  report_shard-works :
      (sid : String) (w : World F)
      → Hosts sid w.ids w
      → (r : ShardReport F) × (report_shard sid w ≡ some r)
  unfolding source Hosts
  report_shard-works sid w h = elim (leader_of-works sid w h) [
    | inl nobody ↦
        let (s, e) = freshest-works none sid w.ids w h in
        report_shard-of_source sid w none s nobody e
    | inr (p, led, listed) ↦
        let (s, e) = h p.1 listed in
        report_shard-of_source sid w (some p) (some s) led (rw (source, e) refl)
  ]

  -- Every node has each of these shards.
  unfoldable pub HostsAll : List String → World F → Type 0
  HostsAll sids w = (sid : String) → contains sids sid ≡ true → Hosts sid w.ids w

  pub HostsAll-first :
      (sid : String) (sids : List String) (w : World F)
      → HostsAll (sid ∷ sids) w
      → Hosts sid w.ids w
  unfolding HostsAll
  HostsAll-first sid sids w h = h sid (ground (arith, eq_refl sid))

  pub HostsAll-rest :
      (sid : String) (sids : List String) (w : World F) → HostsAll (sid ∷ sids) w → HostsAll sids w
  unfolding HostsAll
  HostsAll-rest sid sids w h m listed = h m (ground arith)

  pub report_shards-works :
      (sids : List String) (w : World F)
      → HostsAll sids w
      → (rs : List (ShardReport F)) × (report_shards sids w ≡ some rs)
  unfolding report_shards
  report_shards-works [] w h = ([], refl)
  report_shards-works (sid ∷ sids) w h =
      let (r, e) = report_shard-works sid w (HostsAll-first sid sids w h) in
      let (rs, es) = report_shards-works sids w (HostsAll-rest sid sids w h) in
      (r ∷ rs, rw (report_shards, e, es) refl)

  leads_of-works :
      (n : String) (sids : List String) (w : World F)
      → contains w.ids n ≡ true
      → HostsAll sids w
      → (found : List String) × (leads_of n sids w ≡ some found)
  unfolding leads_of Hosts
  leads_of-works n [] w listed h = ([], refl)
  leads_of-works n (sid ∷ sids) w listed h =
      let (s, e) = HostsAll-first sid sids w h n listed in
      let (found, es) = leads_of-works n sids w listed (HostsAll-rest sid sids w h) in
      elim (Bool-cases (contains w.cluster.net.down n)) [
        | inl off ↦ ([], rw (leads_of, off) refl)
        | inr on ↦
            (if is_leader s.raft.role then sid ∷ found else found, rw (leads_of, on, e, es) refl)
      ]

  pub leads_all-works :
      (ns : List String) (w : World F)
      → ((n : String) → contains ns n ≡ true → contains w.ids n ≡ true)
      → HostsAll w.shard_ids w
      → (all : Dict (List String)) × (leads_all ns w ≡ some all)
  unfolding leads_all
  leads_all-works [] w inside h = ([], refl)
  leads_all-works (n ∷ ns) w inside h =
      let (found, e) = leads_of-works n w.shard_ids w (inside n (ground (arith, eq_refl n))) h in
      let (all, es) = leads_all-works ns w (λ m listed. inside m (ground arith)) h in
      ((n, found) ∷ all, rw (leads_all, e, es) refl)
