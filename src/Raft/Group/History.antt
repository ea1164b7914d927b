-- ===== src/Raft/Group/History.antt =====
-- Logs against a history: for each term, the log of its leader so far.
use native.Mathlib.Numerals.{add-one}
use dssd.Prelude.{
  ℕ, suc, ◌+◌, ◌≤◌, ◌<◌, ◌≡◌, sym, ap, subst, ◌∙◌, inl, inr, true, some, List, [], ◌∷◌, ◌++◌,
  get_elem?, take, drop, length, length-append, get_elem?-of_take, get_elem?-snoc, take-take_le,
  take-append, lt-of_get_elem?, Option-cases, arith,
}
use dssd.Raft.State.{LogEntry}
use dssd.Raft.Log.{has_term, Matching, lt-of_has_term}
use dssd.Raft.Append.{AppendEntriesArgs, append_loop}
use dssd.Raft.Append.Merge.{Merged, merge}

abbrev pub History : Type 0
History = ℕ → List LogEntry

-- Up to each of its entries, the log is that of the entry's term.
pub record Follows (G : History) (log : List LogEntry) : Type 0 where
  pub at :
      (i : ℕ) (e : LogEntry)
      → get_elem? log i ≡ some e
      → (i < length (G e.term)) × (take (suc i) log ≡ take (suc i) (G e.term))

-- Every log of the history has grown at its end.
pub record Grows (G G' : History) : Type 0 where
  pub more : (t : ℕ) → (xs : List LogEntry) × (G' t ≡ G t ++ xs)

-- A request holds a part of its term's log.
pub record Quotes (G : History) (args : AppendEntriesArgs) : Type 0 where
  pub end : ℕ
  pub inside : end ≤ length (G args.term)
  pub prev : has_term (take end (G args.term)) args.prev_log_index args.prev_log_term ≡ true
  pub rest : drop (suc args.prev_log_index) (take end (G args.term)) ≡ args.entries

has_term-cases :
    (log : List LogEntry) (i t : ℕ)
    → has_term log i t ≡ true
    → (e : LogEntry) × (get_elem? log i ≡ some e) × (e.term ≡ t)
unfolding has_term
has_term-cases log i t h = elim (Option-cases (get_elem? log i)) [
  | inl e ↦ ground arith
  | inr (x, e) ↦ (x, e, ground arith)
]

pub Follows-take :
    (G : History) (log : List LogEntry) (i t : ℕ)
    → Follows G log
    → has_term log i t ≡ true
    → take (suc i) log ≡ take (suc i) (G t)
Follows-take G log i t f h =
    let (e, at, same) = has_term-cases log i t h in
    subst (λ s. take (suc i) log ≡ take (suc i) (G s)) same (f.at i e at).1

pub Follows-Matching :
    (G : History) (f l : List LogEntry) → Follows G f → Follows G l → Matching f l
Follows-Matching G f l ff fl = record {
  agree = λ i t hf hl. Follows-take G f i t ff hf ∙ sym (Follows-take G l i t fl hl);
}

pub Follows-grow :
    (G G' : History) (log : List LogEntry) → Grows G G' → Follows G log → Follows G' log
Follows-grow G G' log g f = record {
  at = λ i e h.
      let (lt, same) = f.at i e h in
      let (xs, grown) = g.more e.term in
      (
        omega (arith, ap length grown, length-append (G e.term) xs),
        same ∙ sym (ap (take (suc i)) grown ∙ take-append (G e.term) xs (suc i) (omega arith)),
      );
}

pub Follows-prefix :
    (G : History) (log : List LogEntry) (n : ℕ) → Follows G log → Follows G (take n log)
Follows-prefix G log n f = record {
  at = λ i e h.
      let (lt, here) = get_elem?-of_take log n i e h in
      let (inside, same) = f.at i e here in
      (inside, take-take_le log (suc i) n (omega arith) ∙ same);
}

-- The log of a term with one more entry of this term.
pub Follows-snoc :
    (G : History) (log : List LogEntry) (e : LogEntry)
    → Follows G log
    → G e.term ≡ log ++ e ∷ []
    → Follows G (log ++ e ∷ [])
Follows-snoc G log e f whole = record {
  at = λ i x h. elim (get_elem?-snoc log e x i h) [
    | inl before ↦
        let (lt, same) = f.at i x before in
        (lt, take-append log (e ∷ []) (suc i) (omega (arith, lt-of_get_elem? log i before)) ∙ same)
    | inr (last, here) ↦
        let term : G x.term ≡ log ++ e ∷ [] = ap (λ (y : LogEntry). G y.term) here ∙ whole in
        (omega (arith, ap length term, length-append log (e ∷ [])), ap (take (suc i)) (sym term))
  ];
}

pub Quotes-grow :
    (G G' : History) (args : AppendEntriesArgs) → Grows G G' → Quotes G args → Quotes G' args
Quotes-grow G G' args g q =
    let (xs, grown) = g.more args.term in
    let same : take q.end (G' args.term) ≡ take q.end (G args.term) =
      ap (take q.end) grown ∙ take-append (G args.term) xs q.end q.inside in
    record {
      end = q.end;
      inside = omega (arith, q.inside, ap length grown, length-append (G args.term) xs);
      prev = rw same q.prev;
      rest = rw same q.rest;
    }

Merged-Follows :
    (G : History) (f l log : List LogEntry)
    → Merged f l log
    → Follows G f
    → Follows G l
    → Follows G log
unfolding Merged
Merged-Follows G f l log (inl (e, _)) ff fl = rw e ff
Merged-Follows G f l log (inr e) ff fl = rw e fl

-- What a follower makes of a request's entries.
pub append_loop-Follows :
    (G : History) (log : List LogEntry) (args : AppendEntriesArgs)
    → Follows G log
    → Follows G (G args.term)
    → Quotes G args
    → has_term log args.prev_log_index args.prev_log_term ≡ true
    → Follows G (append_loop (args.prev_log_index + 1) args.entries log)
append_loop-Follows G log args f made q has =
    let l : List LogEntry = take q.end (G args.term) in
    let quoted : Follows G l = Follows-prefix G (G args.term) q.end made in
    let matching = Follows-Matching G log l f quoted in
    let merged =
      merge log l args.entries (suc args.prev_log_index) matching
        (omega (arith, lt-of_has_term l args.prev_log_index args.prev_log_term q.prev))
        (matching.agree args.prev_log_index args.prev_log_term has q.prev) q.rest in
    Merged-Follows G log l (append_loop (args.prev_log_index + 1) args.entries log)
      (rw add-one merged) f quoted
