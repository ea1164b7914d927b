-- ===== src/Raft/Machine/Complete.antt =====
-- Leader completeness: an entry that a majority has acknowledged is in every later leader's log.
use dssd.Prelude.{
  ℕ, zero, suc, ◌+◌, ◌/◌, ◌≤◌, ◌<◌, ◌≡◌, sym, ap, ◌∙◌, inl, inr, String, List, length, count,
  count_mono, count_overlap, take, ltb, arith,
}
use native.Mathlib.Nat.{le_trans}
use native.Mathlib.Decide.{dec_lt}
use dssd.Raft.State.{LogEntry}
use dssd.Raft.Log.{lt-of_has_term}
use dssd.Raft.Cluster.{System}
use dssd.Raft.Group.History.{History, Follows, Follows-take}
use dssd.Raft.Machine.Order.{Has, take-shorten}
use dssd.Raft.Machine.Kept.{Growth, Acks, Keeps}

-- A majority has acknowledged the entry at `n` of term `t`, in its term.
pub record Chosen (members : List String) (G : History) (B : Acks) (t n : ℕ) : Type 0 where
  pub has : Has (G t) n t
  pub enough : length members / 2 + 1 ≤ count (λ v. ltb n (B v t)) members

-- What a member may count as committed: the places up to `c`, which an entry chosen by term `top`
-- stands behind.
pub record SafeAt (members : List String) (G : History) (B : Acks) (top c : ℕ) (log : List LogEntry)
    : Type 0 where
  pub t : ℕ
  pub n : ℕ
  pub chosen : Chosen members G B t n
  pub old : t ≤ top
  pub reach : c ≤ n
  pub same : take (suc c) log ≡ take (suc c) (G t)

pub Chosen-grow :
    (members : List String) (G G' : History) (B B' : Acks) (t n : ℕ)
    → Growth G G'
    → ((v : String) (s : ℕ) → B v s ≤ B' v s)
    → Chosen members G B t n
    → Chosen members G' B' t n
Chosen-grow members G G' B B' t n g more c = record {
  has = (g.at t).forth n t c.has;
  enough = le_trans c.enough (
      count_mono (λ v. ltb n (B v t)) (λ v. ltb n (B' v t)) members
        (λ v h. ground (arith, h, more v t)));
}

module _ {members : List String} {s : System} {G : History} {B : Acks}
    (k : Keeps members s G B) where
  below_bound :
      (t n b u : ℕ) → Chosen members G B t n → u < b → t < u → 0 < length (G u) → Has (G u) n t
  below_bound t n zero u c lt after begun = elim lt [ ]
  below_bound t n (suc b) u c lt after begun =
      let q = k.quorum u (omega arith) begun in
      let (w, voted, acked) =
        count_overlap q.voters (λ v. ltb n (B v t)) members (omega (arith, q.enough, c.enough)) in
      elim (q.backs w voted t n after (ground (arith, acked)) c.has) [
        | inl has ↦ has
        | inr l ↦
            let has = below_bound t n b l.w c (omega (arith, l.before)) l.after l.begun in
            absurd (ground (arith, has, l.lacks))
      ]

  pub Chosen-complete :
      (t n u : ℕ) → Chosen members G B t n → t < u → 0 < length (G u) → Has (G u) n t
  Chosen-complete t n u c after begun = below_bound t n (suc u) u c (omega arith) after begun

  -- Later leaders have all that leads up to it.
  pub Chosen-prefix :
      ((u : ℕ) → Follows G (G u))
      → (t n u : ℕ) → Chosen members G B t n
      → t ≤ u
      → 0 < length (G u)
      → take (suc n) (G u) ≡ take (suc n) (G t)
  Chosen-prefix made t n u c le begun = elim (dec_lt t u) [
    | yes after ↦ Follows-take G (G u) n t (made u) (Chosen-complete t n u c after begun)
    | no same ↦ ap (λ x. take (suc n) (G x)) (omega arith)
  ]

  -- What two members count as committed is the same.
  pub SafeAt-agree :
      ((u : ℕ) → Follows G (G u))
      → (top top' c c' : ℕ) (log log' : List LogEntry) → SafeAt members G B top c log
      → SafeAt members G B top' c' log'
      → (i : ℕ) → i ≤ c
      → i ≤ c'
      → take (suc i) log ≡ take (suc i) log'
  SafeAt-agree made top top' c c' log log' a b i ic ic' =
      take-shorten log (G a.t) (suc i) (suc c) (omega arith) a.same
      ∙ histories
      ∙ sym (take-shorten log' (G b.t) (suc i) (suc c') (omega arith) b.same)
    where
      begun : (t n : ℕ) → Chosen members G B t n → 0 < length (G t)
      begun t n ch = omega (arith, lt-of_has_term (G t) n t ch.has)

      histories : take (suc i) (G a.t) ≡ take (suc i) (G b.t)
      histories = elim (dec_lt a.t b.t) [
        | yes first ↦ sym (
            take-shorten (G b.t) (G a.t) (suc i) (suc a.n) (omega (arith, a.reach))
              (Chosen-prefix made a.t a.n b.t a.chosen (omega arith) (begun b.t b.n b.chosen)))
        | no second ↦
            take-shorten (G a.t) (G b.t) (suc i) (suc b.n) (omega (arith, b.reach))
              (Chosen-prefix made b.t b.n a.t b.chosen (omega arith) (begun a.t a.n a.chosen))
      ]
