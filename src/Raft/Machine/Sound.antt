-- ===== src/Raft/Machine/Sound.antt =====
-- The invariant of a group, and that it outlasts the change of one member.
use mathlib.Core.List.{Memᴰ}
use dssd.Prelude.{
  ℕ, ◌-◌, ◌≤◌, ◌<◌, ◌≡◌, refl, sym, ap, subst, ◌∙◌, inl, inr, String, true, false, List, length,
  length-append, take, take-append, contains, Bool-cases, str_eq, str_eq→eq, eq_refl, arith,
}
use dssd.Raft.State.{Raft, is_leader, is_candidate}
use dssd.Raft.Vote.{RequestVoteArgs}
use dssd.Raft.Append.{AppendEntriesArgs}
use dssd.Raft.Cluster.{System}
use dssd.Raft.Cluster.Invariant.{Inv, put-cases}
use dssd.Raft.Group.{Group}
use dssd.Raft.Group.History.{History, Grows}
use dssd.Raft.Group.Invariant.{Logged}
use dssd.Raft.Machine.{Machine, Answer}
use dssd.Raft.Machine.Order.{Has, Ordered, Has-append}
use dssd.Raft.Machine.Kept.{Growth, Acks, Keeps, Change}
use dssd.Raft.Machine.Keeping.{Change-Keeps}
use dssd.Raft.Machine.Accept.{end_of, Placed}

-- What a vote request says of a candidate that still stands in its term.
pub record Asks (members : List String) (s : System) (args : RequestVoteArgs) : Type 0 where
  pub member : contains members args.candidate_id ≡ true
  pub past : args.term ≤ (s.node args.candidate_id).current_term
  pub honest :
      is_candidate (s.node args.candidate_id).role ≡ true
      → args.term ≡ (s.node args.candidate_id).current_term
      → Has (s.node args.candidate_id).log args.last_log_index args.last_log_term

-- A member's log holds something, and nothing of a later term than its own.
pub record Dated (r : Raft) : Type 0 where
  pub below : (n a : ℕ) → Has r.log n a → a ≤ r.current_term
  pub full : 0 < length r.log

abbrev pub group_of : Machine → Group
group_of m = record { sys = m.sys; sent = m.sent }

-- What a follower's answer says of what it has acknowledged.
abbrev pub Replied : Acks → Answer → Type 0
Replied B a = a.reply.success ≡ true → end_of a.args ≤ B a.from a.args.term

pub record Sound (members : List String) (m : Machine) (G : History) (B : Acks) : Type 0 where
  pub inv : Inv members m.sys
  pub logged : Logged members (group_of m) G
  pub ord : Ordered G
  pub keeps : Keeps members m.sys G B
  pub dated : (i : String) → contains members i ≡ true → Dated (m.sys.node i)
  pub placed : (args : AppendEntriesArgs) → Memᴰ args m.sent → Placed G args
  pub asks : (args : RequestVoteArgs) → Memᴰ args m.asked → Asks members m.sys args
  pub replied : (a : Answer) → Memᴰ a m.replies → Replied B a
  pub leads :
      (i : String)
      → contains members i ≡ true
      → is_leader (m.sys.node i).role ≡ true
      → B i (m.sys.node i).current_term ≡ length (G (m.sys.node i).current_term)

-- The history and the acknowledgements after a step.
pub record Moved (G : History) (B : Acks) (G' : History) (B' : Acks) : Type 0 where
  pub growth : Growth G G'
  pub grows : Grows G G'
  pub more : (w : String) (t : ℕ) → B w t ≤ B' w t

-- The invariant after a step.
abbrev pub Next : List String → History → Acks → Machine → Type 0
Next members G B m = (G' : History) × (B' : Acks) × Moved G B G' B' × Sound members m G' B'

Placed-grow :
    (G G' : History) (args : AppendEntriesArgs) → Grows G G' → Placed G args → Placed G' args
Placed-grow G G' args g p =
    let (xs, grown) = g.more args.term in
    let same : take (end_of args) (G' args.term) ≡ take (end_of args) (G args.term) =
      ap (take (end_of args)) grown ∙ take-append (G args.term) xs (end_of args) p.inside in
    record {
      inside = omega (arith, p.inside, ap length grown, length-append (G args.term) xs);
      last = rw grown (Has-append (G args.term) xs (end_of args - 1) args.term p.last);
      prev = rw grown (Has-append (G args.term) xs args.prev_log_index args.prev_log_term p.prev);
      rest = rw same p.rest;
    }

module _ {members : List String} {m : Machine} {G G' : History} {B B' : Acks} (s' : System)
    (i : String) (r' : Raft) (ch : Change members m.sys s' G G' B B' i r')
    (v : Sound members m G B) where
  after : (P : Raft → Type 0) (j : String) → (i ≡ j → P r') → P (m.sys.node j) → P (s'.node j)
  after P j new old = subst P (sym (ch.node j)) (put-cases P m.sys.node i j r' new old)

  change-Asks : (args : RequestVoteArgs) → Asks members m.sys args → Asks members s' args
  change-Asks args a = record {
    member = a.member;
    past =
        after (λ r. args.term ≤ r.current_term) args.candidate_id
          (λ same. omega (arith, a.past, ch.term, ap (λ x. (m.sys.node x).current_term) same))
          a.past;
    honest =
        after
          (λ r.
            is_candidate r.role ≡ true
            → args.term ≡ r.current_term
            → Has r.log args.last_log_index args.last_log_term)
          args.candidate_id
          (λ same stands now. elim (ch.stands stands) [
            | inl (stood, kept, log) ↦ rw log (
                subst
                  (λ x.
                    is_candidate (m.sys.node x).role ≡ true
                    → args.term ≡ (m.sys.node x).current_term
                    → Has (m.sys.node x).log args.last_log_index args.last_log_term)
                  (sym same) a.honest stood (now ∙ kept))
            | inr newer ↦ absurd (omega (arith, a.past, ap (λ x. (m.sys.node x).current_term) same))
          ])
          a.honest;
  }

  changed : s'.node i ≡ r'
  changed = ch.node i ∙ rw (eq_refl i) refl

  unchanged : (w : String) → str_eq i w ≡ false → s'.node w ≡ m.sys.node w
  unchanged w miss = ch.node w ∙ rw miss refl

  -- What the leaders have acknowledged after the change.
  change-leads :
      (is_leader r'.role ≡ true → B' i r'.current_term ≡ length (G' r'.current_term))
      → ((j : String)
          → contains members j ≡ true
          → str_eq i j ≡ false
          → is_leader (m.sys.node j).role ≡ true
          → length (G' (m.sys.node j).current_term) ≡ length (G (m.sys.node j).current_term))
      → (j : String) → contains members j ≡ true
      → is_leader (s'.node j).role ≡ true
      → B' j (s'.node j).current_term ≡ length (G' (s'.node j).current_term)
  change-leads own other j mem = elim (Bool-cases (str_eq i j)) [
    | inl hit ↦
        subst
          (λ x.
            is_leader (s'.node x).role ≡ true
            → B' x (s'.node x).current_term ≡ length (G' (s'.node x).current_term))
          (str_eq→eq i j hit)
          (subst
            (λ (r : Raft).
              is_leader r.role ≡ true → B' i r.current_term ≡ length (G' r.current_term))
            (sym changed) own)
    | inr miss ↦
        subst
          (λ (r : Raft). is_leader r.role ≡ true → B' j r.current_term ≡ length (G' r.current_term))
          (sym (unchanged j miss))
          (λ l.
            ch.others j (m.sys.node j).current_term miss
            ∙ v.leads j mem l
            ∙ sym (other j mem miss l))
  ]

  pub change-Sound :
      Inv members s'
      → Logged members (record { sys = s'; sent = m.sent }) G'
      → Ordered G'
      → Grows G G'
      → ((w : String) (t : ℕ) → B w t ≤ B' w t)
      → (contains members i ≡ true → Dated r')
      → (is_leader r'.role ≡ true → B' i r'.current_term ≡ length (G' r'.current_term))
      → ((j : String)
          → contains members j ≡ true
          → str_eq i j ≡ false
          → is_leader (m.sys.node j).role ≡ true
          → length (G' (m.sys.node j).current_term) ≡ length (G (m.sys.node j).current_term))
      → Sound members (record m { sys = s' }) G' B'
  change-Sound inv' logged' ord' grows more dated' own other = record {
    inv = inv';
    logged = logged';
    ord = ord';
    keeps = Change-Keeps v.inv ch v.keeps;
    dated = λ j mem.
        after Dated j (λ same. dated' (subst (λ x. contains members x ≡ true) (sym same) mem))
          (v.dated j mem);
    placed = λ args mem. Placed-grow G G' args grows (v.placed args mem);
    asks = λ args mem. change-Asks args (v.asks args mem);
    replied = λ a mem ok. omega (arith, v.replied a mem ok, more a.from a.args.term);
    leads = change-leads own other;
  }
