-- ===== src/Playground/Consensus/Write.antt =====
-- playground.py, `_leader` and `write`: whom the page's user writes to.
use mathlib.Core.List.{Memᴰ}
use mathlib.Core.List.Memᴰ
use dssd.Prelude.{
  ℕ, ◌≤◌, ◌≡◌, refl, subst, sym, ◌⊎◌, inl, inr, String, true, false, none, some, List, [], ◌∷◌,
  ◌++◌, length, contains, str_eq, eq_iff, eq_refl, lookup, lookup-insert, Bool-cases, List-cases,
  arith, if◌then◌else◌,
}
use dssd.Raft.State.{Raft, is_leader, propose}
use dssd.Playground.Network.{MemoryNetwork}
use dssd.Playground.Cluster.{accepted, rejected, note}
use dssd.Playground.Consensus.{
  Consensus, node_of, set_node, with_net, noted, max_pair, leader_now, write,
}
use dssd.Playground.Consensus.Leader.{
  UpLeader, Booted, Lists-leaders, max_pair-listed, max_pair-greatest,
}

-- A write that was accepted: by the up leader of the greatest term, which appends one entry with
-- the text, while every other node is as before.
pub record Accepted (encode : String → List ℕ) (text : String) (c c' : Consensus) : Type 0 where
  pub term : ℕ
  pub leader : String
  pub leads : UpLeader c.ids (λ n. node_of n c.cluster.net) c.cluster.net.down (term, leader)
  pub greatest :
      (p : ℕ × String)
      → UpLeader c.ids (λ n. node_of n c.cluster.net) c.cluster.net.down p
      → p.0 ≤ term
  pub appends :
      node_of leader c'.cluster.net
      ≡ some (record leads.node {
        log =
            leads.node.log
            ++ record {
              term = leads.node.current_term;
              index = length leads.node.log;
              command = encode text;
            }
              ∷ [];
      })
  pub others :
      (n : String) → str_eq leader n ≡ false → node_of n c'.cluster.net ≡ node_of n c.cluster.net

-- A write that was rejected, as there was nobody to take it.
pub record Rejected (now : ℕ) (text : String) (c c' : Consensus) : Type 0 where
  pub nobody :
      (p : ℕ × String) → ¬ UpLeader c.ids (λ n. node_of n c.cluster.net) c.cluster.net.down p
  pub noted_only : c' ≡ noted now (rejected text) c

node_of-set_node :
    (l n : String) (r : Raft) (net : MemoryNetwork)
    → node_of n (set_node l r net) ≡ (if str_eq l n then some r else node_of n net)
unfolding node_of set_node lookup
node_of-set_node l n r net = ground (arith, lookup-insert l n (("", r) ∷ []) net.groups)

write-rejects :
    (encode : String → List ℕ) (now : ℕ) (text : String) (c : Consensus)
    → leader_now c ≡ some none
    → write encode now text c ≡ some (noted now (rejected text) c)
unfolding write
write-rejects encode now text c h = rw (write, h) refl

-- The leader's node with the new entry.
abbrev with_entry : (command : List ℕ) → Raft → Raft
with_entry command r = record r {
  log = r.log ++ record { term = r.current_term; index = length r.log; command = command } ∷ [];
}

write-accepts :
    (encode : String → List ℕ) (now : ℕ) (text l : String) (r : Raft) (c : Consensus)
    → leader_now c ≡ some (some l)
    → str_eq l "" ≡ false
    → contains c.cluster.net.down l ≡ false
    → node_of l c.cluster.net ≡ some r
    → is_leader r.role ≡ true
    → write encode now text c
      ≡ some (
          noted now
            (accepted l text (length r.log) r.current_term)
            (with_net (set_node l (with_entry (encode text) r)) c))
unfolding write propose
write-accepts encode now text l r c h named up here leads =
    rw (write, h, named, up, here, leads) refl

name_of_listed :
    (ids : List String) (l : String)
    → contains ids "" ≡ false
    → contains ids l ≡ true
    → str_eq l "" ≡ false
name_of_listed ids l named listed = elim (Bool-cases (str_eq l "")) [
  | inl empty ↦ ground (arith, (eq_iff l "").0 empty, named, listed)
  | inr other ↦ other
]

-- The write to the leader that the list's maximum names.
accepts :
    (encode : String → List ℕ) (now : ℕ) (text : String) (c : Consensus) (p : ℕ × String)
    → contains c.ids "" ≡ false
    → leader_now c ≡ some (some p.1)
    → UpLeader c.ids (λ n. node_of n c.cluster.net) c.cluster.net.down p
    → ((q : ℕ × String)
        → UpLeader c.ids (λ n. node_of n c.cluster.net) c.cluster.net.down q
        → q.0 ≤ p.0)
    → (c' : Consensus) × (write encode now text c ≡ some c') × Accepted encode text c c'
unfolding note
accepts encode now text c p named h u greatest = (
  _,
  write-accepts encode now text p.1 u.node c h (name_of_listed c.ids p.1 named u.listed) u.up u.here
      u.leads,
  record {
    term = p.0;
    leader = p.1;
    leads = u;
    greatest = greatest;
    appends = rw (node_of-set_node, eq_refl p.1) refl;
    others = λ n other. rw (node_of-set_node, other) refl;
  },
)

-- If every id names a node and none is empty, a write never fails. Either an up leader whose term
-- is the greatest of all up leaders appends exactly one entry, of its term, with the text, and
-- every other node is as before; or no node that is up leads, and nothing changes but the feed,
-- which gets the line that says so.
pub write-Writes :
    (encode : String → List ℕ) (now : ℕ) (text : String) (c : Consensus)
    → Booted c.ids (λ n. node_of n c.cluster.net) c.cluster.net.down
    → contains c.ids "" ≡ false
    → (c' : Consensus) × (write encode now text c ≡ some c')
      × (Accepted encode text c c' ⊎ Rejected now text c c')
unfolding leader_now
write-Writes encode now text c b named =
    let v = Lists-leaders c.ids (λ n. node_of n c.cluster.net) c.cluster.net.down b in
    elim (List-cases v.found) [
      | inl nobody ↦ (
        _,
        write-rejects encode now text c (rw (leader_now, v.returns, nobody) refl),
        inr (record {
          nobody = λ p u. Memᴰ.not-nil (subst (Memᴰ p) nobody (v.complete p u));
          noted_only = refl;
        }),
      )
      | inr (p, ps, e) ↦
          let (c', wrote, accepted_write) =
            accepts encode now text c (max_pair p ps) named (rw (leader_now, v.returns, e) refl)
              (v.sound _ (subst (Memᴰ (max_pair p ps)) (sym e) (max_pair-listed p ps)))
              (λ q u. max_pair-greatest p ps q (subst (Memᴰ q) e (v.complete q u))) in
          (c', wrote, inl accepted_write)
    ]
