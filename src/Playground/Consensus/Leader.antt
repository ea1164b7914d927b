-- ===== src/Playground/Consensus/Leader.antt =====
-- playground.py, `_leader`: the up leader of the greatest term.
use mathlib.Core.List.{Memᴰ}
use mathlib.Core.List.Memᴰ
use dssd.Prelude.{
  Option, ℕ, ◌≤◌, ◌≡◌, refl, subst, sym, ap, ◌∙◌, ◌⊎◌, inl, inr, String, true, false, some, List,
  [], ◌∷◌, contains, str_eq, eq_iff, eq_refl, Bool-cases, some_inj, arith,
}
use dssd.Raft.State.{Raft, is_leader}
use dssd.Playground.Consensus.{pair_lt, max_pair, leaders}

-- A node of these that is up and leads, with its term.
pub record UpLeader (ids : List String) (node_at : String → Option Raft) (down : List String)
    (p : ℕ × String) : Type 0 where
  pub listed : contains ids p.1 ≡ true
  pub up : contains down p.1 ≡ false
  pub node : Raft
  pub here : node_at p.1 ≡ some node
  pub leads : is_leader node.role ≡ true
  pub term : node.current_term ≡ p.0

-- Every id names a node.
pub record Booted (ids : List String) (node_at : String → Option Raft) (down : List String)
    : Type 0 where
  pub nodes : (n : String) → contains ids n ≡ true → (r : Raft) × (node_at n ≡ some r)

UpLeader-cons :
    (n : String) (ns : List String) (node_at : String → Option Raft) (down : List String)
    (p : ℕ × String)
    → UpLeader ns node_at down p
    → UpLeader (n ∷ ns) node_at down p
UpLeader-cons n ns node_at down p u = record {
  listed = ground (arith, u.listed);
  up = u.up;
  node = u.node;
  here = u.here;
  leads = u.leads;
  term = u.term;
}

UpLeader-cases :
    (n : String) (ns : List String) (node_at : String → Option Raft) (down : List String)
    (p : ℕ × String)
    → UpLeader (n ∷ ns) node_at down p
    → (n ≡ p.1) ⊎ UpLeader ns node_at down p
UpLeader-cases n ns node_at down p u = elim (Bool-cases (str_eq n p.1)) [
  | inl here ↦ inl ((eq_iff n p.1).0 here)
  | inr other ↦ inr (record {
    listed = ground (arith, u.listed);
    up = u.up;
    node = u.node;
    here = u.here;
    leads = u.leads;
    term = u.term;
  })
]

-- A node and its table's entry.
same_node :
    (n : String) (node_at : String → Option Raft) (down : List String) (p : ℕ × String)
    (ids : List String) (r : Raft) (u : UpLeader ids node_at down p)
    → n ≡ p.1
    → node_at n ≡ some r
    → u.node ≡ r
same_node n node_at down p ids r u same e =
    some_inj (sym u.here ∙ ap (λ m. node_at m) (sym same) ∙ e)

pub max_pair-listed : (p : ℕ × String) (ps : List (ℕ × String)) → Memᴰ (max_pair p ps) (p ∷ ps)
unfolding max_pair
max_pair-listed p [] = Memᴰ.head refl
max_pair-listed p (q ∷ ps) = elim (Bool-cases (pair_lt p q)) [
  | inl less ↦ rw less (Memᴰ.tail (max_pair-listed q ps))
  | inr more ↦ rw more (elim (Memᴰ.cases_cons (max_pair-listed p ps)) [
    | inl e ↦ Memᴰ.head e
    | inr m ↦ Memᴰ.tail (Memᴰ.tail m)
  ])
]

le-of_pair_lt : (p q : ℕ × String) → pair_lt p q ≡ true → p.0 ≤ q.0
le-of_pair_lt p q h = ground arith

le-of_not_pair_lt : (p q : ℕ × String) → pair_lt p q ≡ false → q.0 ≤ p.0
le-of_not_pair_lt p q h = ground arith

max_pair-le : (p : ℕ × String) (ps : List (ℕ × String)) → p.0 ≤ (max_pair p ps).0
unfolding max_pair
max_pair-le p [] = omega arith
max_pair-le p (q ∷ ps) = elim (Bool-cases (pair_lt p q)) [
  | inl less ↦ rw (max_pair, less) (omega (arith, le-of_pair_lt p q less, max_pair-le q ps))
  | inr more ↦ rw (max_pair, more) (max_pair-le p ps)
]

pub max_pair-greatest :
    (p : ℕ × String) (ps : List (ℕ × String)) (q : ℕ × String)
    → Memᴰ q (p ∷ ps)
    → q.0 ≤ (max_pair p ps).0
unfolding max_pair
max_pair-greatest p ps q (Memᴰ.head e) = rw e (max_pair-le p ps)
max_pair-greatest p [] q (Memᴰ.tail m) = absurd (Memᴰ.not-nil m)
max_pair-greatest p (x ∷ ps) q (Memᴰ.tail m) = elim (Bool-cases (pair_lt p x)) [
  | inl less ↦ rw (max_pair, less) (max_pair-greatest x ps q m)
  | inr more ↦
      rw (max_pair, more)
        (elim (Memᴰ.cases_cons m) [
          | inl e ↦ rw e (omega (arith, le-of_not_pair_lt p x more, max_pair-le p ps))
          | inr m' ↦ max_pair-greatest p ps q (Memᴰ.tail m')
        ])
]

-- What the list of leaders holds.
pub record Lists (ids : List String) (node_at : String → Option Raft) (down : List String)
    : Type 0 where
  pub found : List (ℕ × String)
  pub returns : leaders node_at down ids ≡ some found
  pub sound : (p : ℕ × String) → Memᴰ p found → UpLeader ids node_at down p
  pub complete : (p : ℕ × String) → UpLeader ids node_at down p → Memᴰ p found

pub Lists-leaders :
    (ids : List String) (node_at : String → Option Raft) (down : List String)
    → Booted ids node_at down
    → Lists ids node_at down
unfolding leaders
Lists-leaders [] node_at down b = record {
  found = [];
  returns = refl;
  sound = λ p m. absurd (Memᴰ.not-nil m);
  complete = λ p u. ground (arith, u.listed);
}
Lists-leaders (n ∷ ns) node_at down b =
    let v = Lists-leaders ns node_at down (record { nodes = λ m h. b.nodes m (ground arith) }) in
    elim (Bool-cases (contains down n)) [
      | inl off ↦ record {
        found = v.found;
        returns = rw (leaders, off) v.returns;
        sound = λ p m. UpLeader-cons n ns node_at down p (v.sound p m);
        complete = λ p u. elim (UpLeader-cases n ns node_at down p u) [
          | inl e ↦ ground (arith, u.up, e)
          | inr u' ↦ v.complete p u'
        ];
      }
      | inr up ↦
          let (r, e) = b.nodes n (ground (arith, eq_refl n)) in
          elim (Bool-cases (is_leader r.role)) [
            | inl leads ↦ record {
              found = (r.current_term, n) ∷ v.found;
              returns = rw (leaders, up, e, v.returns, leads) refl;
              sound = λ p m. elim (Memᴰ.cases_cons m) [
                | inl same ↦ subst (UpLeader (n ∷ ns) node_at down) (sym same) (first r up e leads)
                | inr m' ↦ UpLeader-cons n ns node_at down p (v.sound p m')
              ];
              complete = λ p u. elim (UpLeader-cases n ns node_at down p u) [
                | inl same ↦ Memᴰ.head λ i. (
                  (sym u.term
                        ∙ ap (λ (q : Raft). q.current_term)
                            (same_node n node_at down p _ r u same e))
                      i,
                  sym same i,
                )
                | inr u' ↦ Memᴰ.tail (v.complete p u')
              ];
            }
            | inr follows ↦ record {
              found = v.found;
              returns = rw (leaders, up, e, v.returns, follows) refl;
              sound = λ p m. UpLeader-cons n ns node_at down p (v.sound p m);
              complete = λ p u. elim (UpLeader-cases n ns node_at down p u) [
                | inl same ↦ absurd (
                    ground (
                      arith,
                      u.leads,
                      ap (λ (q : Raft). is_leader q.role) (same_node n node_at down p _ r u same e),
                    ))
                | inr u' ↦ v.complete p u'
              ];
            }
          ]
    ]
  where
    first :
        (r : Raft)
        → contains down n ≡ false
        → node_at n ≡ some r
        → is_leader r.role ≡ true
        → UpLeader (n ∷ ns) node_at down (r.current_term, n)
    first r up e leads = record {
      listed = ground (arith, eq_refl n);
      up = up;
      node = r;
      here = e;
      leads = leads;
      term = refl;
    }
