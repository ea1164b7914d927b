-- ===== src/Raft/Cluster/Invariant.antt =====
-- Why two nodes cannot both be elected in one term: every voter's ballots, every candidate's count.
use native.Mathlib.Nat.{le_trans}
use dssd.Prelude.{
  ℕ, ◌+◌, ◌/◌, ◌≤◌, ◌≡◌, ◌≢◌, sym, ap, ◌∙◌, inl, inr, subst, String, Bool, true, ◌&&◌, List, length,
  str_eq, str_eq→eq, contains, count, count_mono, Bool-cases, arith,
}
use dssd.Raft.State.{Raft, is_leader, majority}
use dssd.Raft.Node.Terms.{Later}
use dssd.Raft.Cluster.{Ballots, System, put}
use dssd.Raft.Cluster.Roles.{NoNewLeader}

-- The members' configurations: each knows itself by its name, and all the others as peers.
pub record IsMember (members : List String) (i : String) (r : Raft) : Type 0 where
  pub id : r.cfg.id ≡ i
  pub named : i ≢ ""
  pub size : length r.cfg.peers + 1 ≡ length members
  pub peers : (p : String) → contains r.cfg.peers p ≡ true → contains members p ≡ true

-- The voters whose ballots for `c` in term `t` have been counted.
abbrev pub tallied : System → String → ℕ → String → Bool
tallied s c t v = s.granted c t v && s.counted c t v

-- What a ballot for `c` in term `t` says of the voter's present state.
pub record Cast (c : String) (t : ℕ) (r : Raft) : Type 0 where
  pub past : t ≤ r.current_term
  pub held : t ≡ r.current_term → r.voted_for ≡ c
  pub someone : c ≢ ""

pub record Inv (members : List String) (s : System) : Type 0 where
  pub member : (i : String) → contains members i ≡ true → IsMember members i (s.node i)
  pub cast : (c : String) (t : ℕ) (v : String) → s.granted c t v ≡ true → Cast c t (s.node v)
  pub single :
      (c c' : String) (t : ℕ) (v : String)
      → s.granted c t v ≡ true
      → s.granted c' t v ≡ true
      → c ≡ c'
  pub tally : (c : String) (t : ℕ) → s.votes c t ≤ count (tallied s c t) members
  pub leads :
      (i : String)
      → contains members i ≡ true
      → is_leader (s.node i).role ≡ true
      → length members / 2 + 1 ≤ count (s.granted i (s.node i).current_term) members

pub Later-Cast : (c : String) (t : ℕ) (r r' : Raft) → Later r r' → Cast c t r → Cast c t r'
Later-Cast c t r r' later k = record {
  past = omega (arith, later.term, k.past);
  held = λ e. held e;
  someone = k.someone;
}
  where
    held : t ≡ r'.current_term → r'.voted_for ≡ c
    held e =
        let now : t ≡ r.current_term = omega (arith, later.term, k.past) in
        later.vote (sym now ∙ e) (λ f. k.someone (sym (k.held now) ∙ f)) ∙ k.held now

Later-IsMember :
    (members : List String) (i : String) (r r' : Raft)
    → Later r r'
    → IsMember members i r
    → IsMember members i r'
Later-IsMember members i r r' later m = record {
  id = rw later.cfg m.id;
  named = m.named;
  size = rw later.cfg m.size;
  peers = rw later.cfg m.peers;
}

-- A property of node `j` after a change of node `i`.
pub put-cases :
    (P : Raft → Type 0) (f : String → Raft) (i j : String) (r : Raft)
    → (i ≡ j → P r)
    → P (f j)
    → P (put f i r j)
put-cases P f i j r new old = elim (Bool-cases (str_eq i j)) [
  | inl hit ↦ rw hit (new (str_eq→eq i j hit))
  | inr miss ↦ rw miss old
]

pub majority-eq :
    (members : List String) (i : String) (r : Raft)
    → IsMember members i r
    → majority r ≡ length members / 2 + 1
majority-eq members i r m = ap (λ k. k / 2 + 1) m.size

-- What a step of node `i` to `r'` keeps, whatever becomes of the ballots.
module _ (members : List String) (s : System) (i : String) (r' : Raft) (later : Later (s.node i) r')
    (v : Inv members s) where
  Later-at : (j : String) → i ≡ j → Later (s.node j) r'
  Later-at j e = subst (λ k. Later (s.node k) r') e later

  pub put-IsMember :
      (j : String) → contains members j ≡ true → IsMember members j (put s.node i r' j)
  put-IsMember j h =
      put-cases (IsMember members j) s.node i j r'
        (λ e. Later-IsMember members j (s.node j) r' (Later-at j e) (v.member j h)) (v.member j h)

  pub put-Cast :
      (c : String) (t : ℕ) (w : String) → s.granted c t w ≡ true → Cast c t (put s.node i r' w)
  put-Cast c t w g =
      put-cases (Cast c t) s.node i w r'
        (λ e. Later-Cast c t (s.node w) r' (Later-at w e) (v.cast c t w g)) (v.cast c t w g)

  -- The leaders of before have their majority still, if no ballot is lost.
  abbrev pub Elected : Ballots → String → Raft → Type 0
  Elected granted j r =
      is_leader r.role ≡ true → length members / 2 + 1 ≤ count (granted j r.current_term) members

  pub Elected-grow :
      (granted : Ballots) (j : String)
      → ((c : String) (t : ℕ) (w : String) → s.granted c t w ≡ true → granted c t w ≡ true)
      → contains members j ≡ true
      → Elected granted j (s.node j)
  Elected-grow granted j more h l = le_trans (v.leads j h l) (
      count_mono (s.granted j (s.node j).current_term) (granted j (s.node j).current_term) members
        (more j (s.node j).current_term))

  pub put-Elected :
      (granted : Ballots)
      → ((c : String) (t : ℕ) (w : String) → s.granted c t w ≡ true → granted c t w ≡ true)
      → NoNewLeader (s.node i) r'
      → (j : String) → contains members j ≡ true
      → Elected granted j (put s.node i r' j)
  put-Elected granted more none_new j h =
      put-cases (Elected granted j) s.node i j r' new (Elected-grow granted j more h)
    where
      new : i ≡ j → Elected granted j r'
      new e l =
          let (led, same) = subst (λ k. NoNewLeader (s.node k) r') e none_new l in
          rw same (Elected-grow granted j more h led)
