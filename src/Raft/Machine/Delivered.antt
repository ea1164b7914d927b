-- ===== src/Raft/Machine/Delivered.antt =====
-- What the members' appliers have handed over along a run.
use native.Mathlib.Numerals.{add-one}
use mathlib.Core.List.{Memᴰ}
use dssd.Prelude.{
  ℕ, zero, suc, ◌+◌, ◌-◌, ◌≤◌, ◌<◌, ◌≡◌, refl, sym, ap, subst, ◌∙◌, inl, inr, String, Bool, true,
  false, some, some_inj, List, [], ◌∷◌, ◌++◌, length, take, drop, contains, Bool-cases, str_eq,
  str_eq→eq, if◌then◌else◌, arith,
}
use dssd.Raft.State.{Raft, LogEntry}
use dssd.Raft.Append.{AppendEntriesArgs, handle_append_entries}
use dssd.Raft.Apply.{applier}
use dssd.Raft.Apply.Deliver.{applier-delivers}
use dssd.Raft.Cluster.{put, stand, answer, hear}
use dssd.Raft.Cluster.Invariant.{put-cases}
use dssd.Raft.Group.{receive}
use dssd.Raft.Group.History.{History}
use dssd.Raft.Group.Lead.{append_nil}
use dssd.Raft.Machine.{
  Machine, restarts, ticks, applies, MachineStep, alone, proposes, stands, answers, counts, sends,
  receives, gets, MachineReach, starts, runs,
}
use dssd.Raft.Machine.Kept.{Acks}
use dssd.Raft.Machine.Complete.{SafeAt-agree}
use dssd.Raft.Machine.Sound.{Sound, Moved}
use dssd.Raft.Machine.Answers.{MachineStep-Sound}
use dssd.Raft.Machine.Fine.{SafeAt-move, SafeAt-inside}
use dssd.Raft.Machine.Takes.{accept_inside}
use dssd.Raft.Machine.Forward.{
  Forward, start-Forward, run_once-Forward, start_election-Forward, handle_request_vote-Forward,
  propose-Forward, ask-Forward, on_append_reply-Forward, handle_append_entries-Forward,
}
use dssd.Raft.Machine.Committed.{Commits, step-Commits}

-- What a step hands over to the member's `apply`.
abbrev pub delivered_by :
    {members : List String} {m k : Machine} → MachineStep members m k → String → List LogEntry
delivered_by (alone i mem (restarts now)) j = []
delivered_by (alone i mem (ticks now timeout h)) j = []
delivered_by (alone i mem (applies {es = es} h)) j = if str_eq i j then es else []
delivered_by (proposes i command mem) j = []
delivered_by (stands i now timeout mem) j = []
delivered_by (answers v now args mem named asked) j = []
delivered_by (counts c t p now reply mem peer first granted) j = []
delivered_by (sends i peer term args mem sent) j = []
delivered_by (receives v now args mem sent) j = []
delivered_by (gets i now a mem peer got h) j = []

-- The member's applier runs in this step.
abbrev applies_at :
    {members : List String} {m k : Machine} → MachineStep members m k → String → Bool
applies_at (alone i mem (restarts now)) j = false
applies_at (alone i mem (ticks now timeout h)) j = false
applies_at (alone i mem (applies h)) j = str_eq i j
applies_at (proposes i command mem) j = false
applies_at (stands i now timeout mem) j = false
applies_at (answers v now args mem named asked) j = false
applies_at (counts c t p now reply mem peer first granted) j = false
applies_at (sends i peer term args mem sent) j = false
applies_at (receives v now args mem sent) j = false
applies_at (gets i now a mem peer got h) j = false

-- All that a run has handed over to the member's `apply`, in order.
abbrev pub delivered :
    {members : List String} {m k : Machine} → MachineReach members m k → String → List LogEntry
delivered starts j = []
delivered (runs run step) j = delivered run j ++ delivered_by step j

-- What has been handed over is the log after the sentinel, up to the last applied place.
pub record Applied (r : Raft) (es : List LogEntry) : Type 0 where
  pub low : r.last_applied ≤ r.commit_index
  pub done : es ≡ drop 1 (take (suc r.last_applied) r.log)

take-nil : (n : ℕ) → take {A = LogEntry} n [] ≡ []
take-nil zero = refl
take-nil (suc n) = refl

take-more : (n d : ℕ) (l : List LogEntry) → take n l ++ take d (drop n l) ≡ take (n + d) l
take-more zero d l = ap (λ k. take k l) (omega arith)
take-more (suc n) d [] = take-nil d ∙ sym (take-nil (suc n + d))
take-more (suc n) d (x ∷ l) =
    let same : suc (n + d) ≡ suc n + d = omega arith in
    ap (◌∷◌ x) (take-more n d l) ∙ ap (λ k. take k (x ∷ l)) same

-- The next slice of a log behind its sentinel.
pub slice :
    (n c : ℕ) (l : List LogEntry)
    → n ≤ c
    → 0 < length l
    → drop 1 (take (suc n) l) ++ take (c - n) (drop (n + 1) l) ≡ drop 1 (take (suc c) l)
slice n c [] le pos = elim pos [ ]
slice n c (x ∷ l) le pos = rw add-one (take-more n (c - n) l ∙ ap (λ k. take k l) (omega arith))

apply-Applied :
    (r r' : Raft) (xs es : List LogEntry)
    → applier r ≡ some (r', es)
    → r.commit_index < length r.log
    → Applied r xs
    → Applied r' (xs ++ es)
apply-Applied r r' xs es h inside a =
    subst (λ (p : Raft × List LogEntry). Applied p.0 (xs ++ p.1))
      (some_inj (sym (applier-delivers r a.low inside) ∙ h))
      (record {
        low = omega arith;
        done =
            ap
              (λ ys. ys ++ take (r.commit_index - r.last_applied) (drop (r.last_applied + 1) r.log))
              a.done
            ∙ slice r.last_applied r.commit_index r.log a.low (omega arith);
      })

hands_nothing :
    {members : List String} {m k : Machine} (step : MachineStep members m k) (j : String)
    → applies_at step j ≡ false
    → delivered_by step j ≡ []
hands_nothing (alone i mem (restarts now)) j h = refl
hands_nothing (alone i mem (ticks now timeout n)) j h = refl
hands_nothing (alone i mem (applies {es = es} e)) j h = rw h refl
hands_nothing (proposes i command mem) j h = refl
hands_nothing (stands i now timeout mem) j h = refl
hands_nothing (answers w now args mem named asked) j h = refl
hands_nothing (counts i t p now reply mem peer first granted) j h = refl
hands_nothing (sends i peer term args mem sent) j h = refl
hands_nothing (receives w now args mem sent) j h = refl
hands_nothing (gets i now b mem peer got e) j h = refl

Forward-refl : (r : Raft) → Forward r r
Forward-refl r = record { applied = refl; commit = omega arith }

module _ {members : List String} (m k : Machine) (G G' : History) (B B' : Acks)
    (moved : Moved G B G' B') (v : Sound members m G B) (v' : Sound members k G' B')
    (c : Commits members m.sys m.sent G B) (c' : Commits members k.sys k.sent G' B') where
  Forward-Applied :
      (j : String) (xs : List LogEntry)
      → contains members j ≡ true
      → Forward (m.sys.node j) (k.sys.node j)
      → Applied (m.sys.node j) xs
      → Applied (k.sys.node j) (xs ++ [])
  Forward-Applied j xs mem f a = record {
    low = omega (arith, f.applied, f.commit, a.low);
    done =
        append_nil xs
        ∙ a.done
        ∙ ap (drop 1) (
            subst
              (λ n.
                take (suc (m.sys.node j).last_applied) (m.sys.node j).log
                ≡ take (suc n) (k.sys.node j).log)
              (sym f.applied)
              (SafeAt-agree v'.keeps v'.logged.made (m.sys.node j).current_term
                (k.sys.node j).current_term (m.sys.node j).commit_index (k.sys.node j).commit_index
                (m.sys.node j).log (k.sys.node j).log
                (SafeAt-move members G G' B B' (m.sys.node j).current_term
                  (m.sys.node j).commit_index (m.sys.node j).log moved (c.fine j mem).safe)
                (c'.fine j mem).safe (m.sys.node j).last_applied a.low
                (omega (arith, f.commit, a.low))));
  }

-- A member other than the one that steps.
put-Forward :
    (f : String → Raft) (i j : String) (r' : Raft) → Forward (f i) r' → Forward (f j) (put f i r' j)
put-Forward f i j r' step =
    put-cases (Forward (f j)) f i j r' (λ same. subst (λ x. Forward (f x) r') same step)
      (Forward-refl (f j))

module _ {members : List String} (m : Machine) (G : History) (B : Acks) (v : Sound members m G B)
    (c : Commits members m.sys m.sent G B) where
  receive-Forward :
      (j : String) (now : ℕ) (args : AppendEntriesArgs)
      → contains members j ≡ true
      → Memᴰ args m.sent
      → Forward (m.sys.node j) (handle_append_entries now args (m.sys.node j)).0
  receive-Forward j now args mem sent = handle_append_entries-Forward now args (m.sys.node j) (λ a.
      accept_inside G B v.keeps v.ord v.logged.made (m.sys.node j)
        (handle_append_entries now args (m.sys.node j)).0 args (v.logged.follow j mem)
        (v.placed args sent) a (c.fine j mem).safe)

  -- The applier's step.
  apply-step :
      {k : Machine} (step : MachineStep members m k) (j : String) (xs : List LogEntry)
      → contains members j ≡ true
      → applies_at step j ≡ true
      → Applied (m.sys.node j) xs
      → Applied (k.sys.node j) (xs ++ delivered_by step j)
  apply-step (alone i mem (restarts now)) j xs mem_j h a = ground (arith, h)
  apply-step (alone i mem (ticks now timeout n)) j xs mem_j h a = ground (arith, h)
  apply-step (alone i {r'} mem (applies {es = es} e)) j xs mem_j h a = rw h (
      apply-Applied (m.sys.node i) r' xs es e
        (SafeAt-inside members G B (m.sys.node i).current_term (m.sys.node i).commit_index
          (m.sys.node i).log (c.fine i mem).safe)
        (subst (λ x. Applied (m.sys.node x) xs) (sym (str_eq→eq i j h)) a))
  apply-step (proposes i command mem) j xs mem_j h a = ground (arith, h)
  apply-step (stands i now timeout mem) j xs mem_j h a = ground (arith, h)
  apply-step (answers w now args mem named asked) j xs mem_j h a = ground (arith, h)
  apply-step (counts i t p now reply mem peer first granted) j xs mem_j h a = ground (arith, h)
  apply-step (sends i peer term args mem sent) j xs mem_j h a = ground (arith, h)
  apply-step (receives w now args mem sent) j xs mem_j h a = ground (arith, h)
  apply-step (gets i now b mem peer got e) j xs mem_j h a = ground (arith, h)

  -- A step that hands nothing over, for each member.
  step-Forward :
      {k : Machine} (step : MachineStep members m k) (j : String)
      → applies_at step j ≡ false
      → Forward (m.sys.node j) (k.sys.node j)
  unfolding stand answer hear receive
  step-Forward (alone i mem (restarts now)) j h =
      put-Forward m.sys.node i j _ (start-Forward now (m.sys.node i))
  step-Forward (alone i mem (ticks now timeout n)) j h =
      put-Forward m.sys.node i j _ (run_once-Forward now timeout (m.sys.node i))
  step-Forward (alone i {r'} mem (applies a)) j h = rw h (Forward-refl (m.sys.node j))
  step-Forward (proposes i command mem) j h =
      put-Forward m.sys.node i j _ (propose-Forward (m.sys.node i) command)
  step-Forward (stands i now timeout mem) j h =
      put-Forward m.sys.node i j _ (start_election-Forward now timeout (m.sys.node i))
  step-Forward (answers w now args mem named asked) j h =
      put-Forward m.sys.node w j _ (handle_request_vote-Forward now args (m.sys.node w))
  step-Forward (counts i t p now reply mem peer first granted) j h =
      put-Forward m.sys.node i j _ (ask-Forward now reply (m.sys.node i) _)
  step-Forward (sends i peer term args mem sent) j h = Forward-refl (m.sys.node j)
  step-Forward (receives w now args mem sent) j h =
      put-Forward m.sys.node w j _ (receive-Forward w now args mem sent)
  step-Forward (gets i now a {r'} mem peer got e) j h =
      put-Forward m.sys.node i j r'
        (on_append_reply-Forward now a.from a.args a.reply (m.sys.node i) r' e)

-- The whole invariant, with what has been handed over.
abbrev HasApplied : (members : List String) (m : Machine) → (String → List LogEntry) → Type 0
HasApplied members m ds =
    (G : History) × (B : Acks) × Sound members m G B
    × Commits members m.sys m.sent G B
    × ((j : String) → contains members j ≡ true → Applied (m.sys.node j) (ds j))

pub run-Applied :
    {members : List String} {m k : Machine} (run : MachineReach members m k)
    → HasApplied members m (λ j. [])
    → HasApplied members k (delivered run)
run-Applied starts start = start
run-Applied (runs {k = m} {l = k} run step) start =
    let (G, B, v, c, a) = run-Applied run start in
    let (G', B', moved, v') = MachineStep-Sound step v in
    let c' = step-Commits m G G' B B' moved v c step in
    (
      G',
      B',
      v',
      c',
      λ j mem. elim (Bool-cases (applies_at step j)) [
        | inl yes' ↦ apply-step m G B v c step j (delivered run j) mem yes' (a j mem)
        | inr no' ↦
            subst (λ es. Applied (k.sys.node j) (delivered run j ++ es))
              (sym (hands_nothing step j no'))
              (Forward-Applied m k G G' B B' moved v v' c c' j (delivered run j) mem
                (step-Forward m G B v c step j no') (a j mem))
      ],
    )
