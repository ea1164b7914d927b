-- ===== src/Raft/Group/Invariant.antt =====
-- What every log of the group, every request and every leader say of the history.
use mathlib.Core.List.{Memᴰ}
use dssd.Prelude.{
  ℕ, ◌+◌, ◌/◌, ◌≤◌, ◌<◌, ◌≡◌, sym, subst, ◌⊎◌, inl, inr, String, true, false, List, [], length,
  contains, count, count_mono, Bool-cases, arith,
}
use native.Mathlib.Nat.{le_trans}
use dssd.Raft.State.{Raft, is_leader, is_candidate}
use dssd.Raft.Append.{AppendEntriesArgs}
use dssd.Raft.Cluster.{Ballots, System, put}
use dssd.Raft.Cluster.Invariant.{put-cases}
use dssd.Raft.Group.{Group}
use dssd.Raft.Group.Effects.{Calm}
use dssd.Raft.Group.History.{History, Follows, Quotes}

-- A majority has granted the member this term, and it does not stand for it any more.
pub record Elected (members : List String) (s : System) (t : ℕ) : Type 0 where
  pub c : String
  pub member : contains members c ≡ true
  pub majority : length members / 2 + 1 ≤ count (s.granted c t) members
  pub past : t ≤ (s.node c).current_term
  pub stands_not : t ≡ (s.node c).current_term → is_candidate (s.node c).role ≡ false

pub record Logged (members : List String) (g : Group) (G : History) : Type 0 where
  pub follow : (i : String) → contains members i ≡ true → Follows G (g.sys.node i).log
  pub lead :
      (i : String)
      → contains members i ≡ true
      → is_leader (g.sys.node i).role ≡ true
      → (g.sys.node i).log ≡ G (g.sys.node i).current_term
  pub stood :
      (i : String)
      → contains members i ≡ true
      → is_candidate (g.sys.node i).role ≡ true
      → 0 < (g.sys.node i).current_term
  pub made : (t : ℕ) → Follows G (G t)
  pub quoted : (args : AppendEntriesArgs) → Memᴰ args g.sent → Quotes G args
  pub born : (t : ℕ) → 0 < t → (G t ≡ []) ⊎ Elected members g.sys t

-- A change of a node that does nothing to the history.
pub record Rests (G : History) (r r' : Raft) : Type 0 where
  pub follow : Follows G r'.log
  pub lead : is_leader r'.role ≡ true → r'.log ≡ G r'.current_term
  pub stands :
      is_candidate r'.role ≡ true
      → ((is_candidate r.role ≡ true) × (r'.current_term ≡ r.current_term))
        ⊎ (r.current_term < r'.current_term)
  pub term : r.current_term ≤ r'.current_term

pub Calm-Rests :
    (G : History) (r r' : Raft)
    → Follows G r.log
    → (is_leader r.role ≡ true → r.log ≡ G r.current_term)
    → r.current_term ≤ r'.current_term
    → Calm r r'
    → Rests G r r'
Calm-Rests G r r' f lead term c = record {
  follow = rw c.log f;
  lead = λ h. let (led, same) = c.leads h in rw (c.log, same) (lead led);
  stands = c.stands;
  term = term;
}

-- Of a node that stood for `t` no more, it is still so.
Rests-stands_not :
    (G : History) (r r' : Raft) (t : ℕ)
    → Rests G r r'
    → t ≤ r.current_term
    → (t ≡ r.current_term → is_candidate r.role ≡ false)
    → t ≡ r'.current_term
    → is_candidate r'.role ≡ false
Rests-stands_not G r r' t k past not_then now = elim (Bool-cases (is_candidate r'.role)) [
  | inr no' ↦ no'
  | inl yes' ↦ elim (k.stands yes') [
    | inl (stood, same) ↦ ground (arith, stood, not_then (omega arith))
    | inr newer ↦ absurd (omega arith)
  ]
]

module _ (members : List String) (g : Group) (G : History) (i : String) (r' : Raft)
    (votes : String → ℕ → ℕ) (granted counted : Ballots)
    (more : (c : String) (t : ℕ) (w : String) → g.sys.granted c t w ≡ true → granted c t w ≡ true)
    (v : Logged members g G) where
  s' : System
  s' = record { node = put g.sys.node i r'; votes = votes; granted = granted; counted = counted }

  rest-Elected :
      (t : ℕ) → Rests G (g.sys.node i) r' → Elected members g.sys t → Elected members s' t
  unfolding s'
  rest-Elected t k e = record {
    c = e.c;
    member = e.member;
    majority =
        le_trans e.majority (count_mono (g.sys.granted e.c t) (granted e.c t) members (more e.c t));
    past = (both e.past e.stands_not).0;
    stands_not = (both e.past e.stands_not).1;
  }
    where
      Fine : Raft → Type 0
      Fine r = (t ≤ r.current_term) × (t ≡ r.current_term → is_candidate r.role ≡ false)

      both :
          t ≤ (g.sys.node e.c).current_term
          → (t ≡ (g.sys.node e.c).current_term → is_candidate (g.sys.node e.c).role ≡ false)
          → Fine (put g.sys.node i r' e.c)
      both past stands_not =
          put-cases Fine g.sys.node i e.c r'
            (λ same.
              let k' : Rests G (g.sys.node e.c) r' =
                subst (λ j. Rests G (g.sys.node j) r') same k in
              (omega (arith, k'.term), Rests-stands_not G (g.sys.node e.c) r' t k' past stands_not))
            (past, stands_not)

  pub rest-Logged :
      Rests G (g.sys.node i) r'
      → Logged members
          (record g {
            sys = record {
              node = put g.sys.node i r';
              votes = votes;
              granted = granted;
              counted = counted;
            };
          })
          G
  unfolding s'
  rest-Logged k = record {
    follow =
        λ j h. put-cases (λ r. Follows G r.log) g.sys.node i j r' (λ _. k.follow) (v.follow j h);
    lead = λ j h.
        put-cases (λ r. is_leader r.role ≡ true → r.log ≡ G r.current_term) g.sys.node i j r'
          (λ _. k.lead) (v.lead j h);
    stood = λ j h.
        put-cases (λ r. is_candidate r.role ≡ true → 0 < r.current_term) g.sys.node i j r'
          (λ same c. elim (k.stands c) [
            | inl (stood, kept) ↦
                omega (
                  arith,
                  kept,
                  v.stood i (subst (λ m. contains members m ≡ true) (sym same) h) stood,
                )
            | inr newer ↦ omega arith
          ])
          (v.stood j h);
    made = v.made;
    quoted = v.quoted;
    born = λ t pos. elim (v.born t pos) [
      | inl none_yet ↦ inl none_yet
      | inr e ↦ inr (rest-Elected t k e)
    ];
  }
