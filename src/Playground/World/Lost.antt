-- ===== src/Playground/World/Lost.antt =====
-- playground.py, `snapshot`: what its count of lost agents says of the replicas.
use dssd.Prelude.{
  ℕ, ◌≡◌, refl, ap, sym, some_inj, ◌∙◌, ◌↔◌, ◌⊎◌, inl, inr, String, Bool, true, not, some, List, [],
  ◌∷◌, ◌++◌, contains, contains-append, count, str_eq, eq_iff, eq_refl, subst, Bool-cases, arith,
}
use dssd.Shard.State.{ShardStateMachine}
use dssd.Playground.Cluster.{drain}
use dssd.Playground.World.{World, shard_at}
use dssd.Playground.World.Report.{WorldReport, agent_ids, seen_in, seen_all, stats, report}
use dssd.Playground.World.Total.{
  Hosts, Hosts-first, Hosts-rest, HostsAll, HostsAll-first, HostsAll-rest, report_shards-works,
  leads_all-works,
}

contains-right :
    (xs ys : List String) (a : String) → contains ys a ≡ true → contains (xs ++ ys) a ≡ true
contains-right xs ys a h = ground (arith, contains-append xs ys a, h)

-- No entry fails the test exactly if all pass it.
count_missing :
    (p : String → Bool) (xs : List String)
    → (count (λ x. not (p x)) xs ≡ 0) ↔ ((x : String) → contains xs x ≡ true → p x ≡ true)
count_missing p [] = (λ h x listed. ground arith, λ h. refl)
count_missing p (x ∷ xs) = elim (Bool-cases (p x)) [
  | inl has ↦ (
    λ h y listed. elim (Bool-cases (str_eq x y)) [
      | inl same ↦ subst (λ z. p z ≡ true) ((eq_iff x y).0 same) has
      | inr other ↦ (count_missing p xs).0 (ground arith) y (ground arith)
    ],
    λ h. ground (arith, (count_missing p xs).1 λ y listed. h y (ground arith)),
  )
  | inr lacks ↦ (λ h y listed. ground arith, λ h. ground (arith, h x (ground (arith, eq_refl x))))
]

module _ {F : Type 0} where
  -- One of these nodes, up or down, has the agent in its replica of the shard.
  pub record HeldIn (sid : String) (ns : List String) (w : World F) (id : String) : Type 0 where
    pub node : String
    pub listed : contains ns node ≡ true
    pub replica : ShardStateMachine F
    pub here : shard_at node sid w ≡ some replica
    pub holds : contains (agent_ids replica) id ≡ true

  -- It is so for one of these shards.
  pub record Held (sids : List String) (w : World F) (id : String) : Type 0 where
    pub shard : String
    pub listed : contains sids shard ≡ true
    pub held : HeldIn shard w.ids w id

  HeldIn-cons :
      (sid n : String) (ns : List String) (w : World F) (id : String)
      → HeldIn sid ns w id
      → HeldIn sid (n ∷ ns) w id
  HeldIn-cons sid n ns w id h = record {
    node = h.node;
    listed = ground (arith, h.listed);
    replica = h.replica;
    here = h.here;
    holds = h.holds;
  }

  Held-cons :
      (sid : String) (sids : List String) (w : World F) (id : String)
      → Held sids w id
      → Held (sid ∷ sids) w id
  Held-cons sid sids w id h = record {
    shard = h.shard;
    listed = ground (arith, h.listed);
    held = h.held;
  }

  HeldIn-cases :
      (sid n : String) (ns : List String) (w : World F) (id : String) (s : ShardStateMachine F)
      → shard_at n sid w ≡ some s
      → HeldIn sid (n ∷ ns) w id
      → (contains (agent_ids s) id ≡ true) ⊎ HeldIn sid ns w id
  HeldIn-cases sid n ns w id s e h = elim (Bool-cases (str_eq n h.node)) [
    | inl first ↦ inl (
        subst (λ r. contains (agent_ids r) id ≡ true)
          (some_inj (sym h.here ∙ ap (λ m. shard_at m sid w) (sym ((eq_iff n h.node).0 first)) ∙ e))
          h.holds)
    | inr later ↦ inr (record {
      node = h.node;
      listed = ground (arith, h.listed);
      replica = h.replica;
      here = h.here;
      holds = h.holds;
    })
  ]

  Held-cases :
      (sid : String) (sids : List String) (w : World F) (id : String)
      → Held (sid ∷ sids) w id
      → HeldIn sid w.ids w id ⊎ Held sids w id
  Held-cases sid sids w id h = elim (Bool-cases (str_eq sid h.shard)) [
    | inl first ↦
        inl (subst (λ shard. HeldIn shard w.ids w id) (sym ((eq_iff sid h.shard).0 first)) h.held)
    | inr later ↦ inr (record { shard = h.shard; listed = ground (arith, h.listed); held = h.held })
  ]

  seen_in-HeldIn :
      (sid : String) (ns : List String) (w : World F)
      → Hosts sid ns w
      → (seen : List String) × (seen_in sid ns w ≡ some seen)
        × ((id : String) → (contains seen id ≡ true) ↔ HeldIn sid ns w id)
  unfolding seen_in
  seen_in-HeldIn sid [] w h = ([], refl, λ id. (λ listed. ground arith, λ u. u.listed))
  seen_in-HeldIn sid (n ∷ ns) w h =
      let (s, e) = Hosts-first sid n ns w h in
      let (seen, es, v) = seen_in-HeldIn sid ns w (Hosts-rest sid n ns w h) in
      (
        agent_ids s ++ seen,
        rw (seen_in, e, es) refl,
        λ id. (
          λ listed. elim (Bool-cases (contains (agent_ids s) id)) [
            | inl has ↦ record {
              node = n;
              listed = ground (arith, eq_refl n);
              replica = s;
              here = e;
              holds = has;
            }
            | inr lacks ↦
                HeldIn-cons sid n ns w id
                  ((v id).0 (ground (arith, contains-append (agent_ids s) seen id)))
          ],
          λ u. elim (HeldIn-cases sid n ns w id s e u) [
            | inl has ↦ rw (contains-append, has) refl
            | inr rest ↦ contains-right (agent_ids s) seen id ((v id).1 rest)
          ],
        ),
      )

  seen_all-Held :
      (sids : List String) (w : World F)
      → HostsAll sids w
      → (seen : List String) × (seen_all sids w ≡ some seen)
        × ((id : String) → (contains seen id ≡ true) ↔ Held sids w id)
  unfolding seen_all
  seen_all-Held [] w h = ([], refl, λ id. (λ listed. ground arith, λ u. u.listed))
  seen_all-Held (sid ∷ sids) w h =
      let (found, e, here) = seen_in-HeldIn sid w.ids w (HostsAll-first sid sids w h) in
      let (seen, es, v) = seen_all-Held sids w (HostsAll-rest sid sids w h) in
      (
        found ++ seen,
        rw (seen_all, e, es) refl,
        λ id. (
          λ listed. elim (Bool-cases (contains found id)) [
            | inl has ↦ record {
              shard = sid;
              listed = ground (arith, eq_refl sid);
              held = (here id).0 has;
            }
            | inr lacks ↦
                Held-cons sid sids w id ((v id).0 (ground (arith, contains-append found seen id)))
          ],
          λ u. elim (Held-cases sid sids w id u) [
            | inl first ↦ rw (contains-append, (here id).1 first) refl
            | inr rest ↦ contains-right found seen id ((v id).1 rest)
          ],
        ),
      )

  -- What a report is.
  pub record Reports (now : ℕ) (w : World F) : Type 0 where
    pub after : World F
    pub says : WorldReport F
    pub returns : report now w ≡ some (after, says)
    pub keeps : after.shards ≡ w.shards
    pub lost :
        (says.stats.lost ≡ 0)
        ↔ ((id : String) → contains w.expected id ≡ true → Held w.shard_ids w id)

  -- If every node has every shard, a report of the world never fails, leaves the shards as they
  -- are, and counts no agent as lost exactly if every expected agent is held by a replica of some
  -- shard, on a node that is up or down.
  pub report-Reports : (now : ℕ) (w : World F) → HostsAll w.shard_ids w → Reports now w
  unfolding report stats drain
  report-Reports now w h =
      let (reports, e₁) = report_shards-works w.shard_ids w h in
      let (seen, e₂, v) = seen_all-Held w.shard_ids w h in
      let (leads, e₃) = leads_all-works w.ids w (λ n listed. listed) h in
      let none_missing = count_missing (contains seen) w.expected in
      record {
        after = record w { cluster = (drain now w.cluster).0 };
        says = record {
          drained = (drain now w.cluster).1;
          leads = leads;
          shards = reports;
          stats = stats seen reports w;
        };
        returns = rw (report, e₁, e₂, e₃) refl;
        keeps = refl;
        lost = (
          λ zero' id listed. (v id).0 (none_missing.0 zero' id listed),
          λ all. none_missing.1 λ id listed. (v id).1 (all id listed),
        );
      }
