-- ===== src/Raft/Log.antt =====
-- Facts about a node's log, `self._log` of raft.py: a list whose entry at place `i` has index `i`.
use dssd.Prelude.{
  ℕ, zero, suc, ◌≤◌, ◌<◌, ◌≡◌, refl, Bool, false, true, List, [], ◌∷◌, none, some, get_elem?, take,
  drop, length, ◌==◌, arith,
}
use dssd.Raft.State.{LogEntry}

-- `i < len(log) and log[i].term == term`
unfoldable pub has_term : List LogEntry → ℕ → ℕ → Bool
has_term log i term = elim (get_elem? log i) [ none ↦ false | some e ↦ e.term == term ]

-- Two logs agree up to any place where their terms agree: the Log Matching property.
pub record Matching (f l : List LogEntry) : Type 0 where
  pub agree :
      (i t : ℕ) → has_term f i t ≡ true → has_term l i t ≡ true → take (suc i) f ≡ take (suc i) l

pub has_term-get_elem? :
    (log : List LogEntry) (i : ℕ) (e : LogEntry)
    → get_elem? log i ≡ some e
    → has_term log i e.term ≡ true
unfolding has_term
has_term-get_elem? log i e h = ground arith

pub lt-of_has_term : (log : List LogEntry) (i t : ℕ) → has_term log i t ≡ true → i < length log
unfolding has_term
lt-of_has_term [] i t h = ground arith
lt-of_has_term (x ∷ xs) zero t h = omega arith
lt-of_has_term (x ∷ xs) (suc i) t h = omega (arith, lt-of_has_term xs i t h)

-- An entry is where the rest of the log begins.
pub get_elem?-drop :
    (log : List LogEntry) (i : ℕ) (e : LogEntry) (es : List LogEntry)
    → drop i log ≡ e ∷ es
    → (get_elem? log i ≡ some e) × (drop (suc i) log ≡ es)
get_elem?-drop [] zero e es h = ground arith
get_elem?-drop [] (suc i) e es h = ground arith
get_elem?-drop (x ∷ xs) zero e es h = ground arith
get_elem?-drop (x ∷ xs) (suc i) e es h = get_elem?-drop xs i e es h

pub drop-eq-nil : (log : List LogEntry) (i : ℕ) → drop i log ≡ [] → length log ≤ i
drop-eq-nil [] i h = omega arith
drop-eq-nil (x ∷ xs) zero h = ground arith
drop-eq-nil (x ∷ xs) (suc i) h = omega (arith, drop-eq-nil xs i h)

pub Matching-refl : (log : List LogEntry) → Matching log log
Matching-refl log = record { agree = λ i t _ _. refl }
