-- ===== src/Raft/Group/Safety.antt =====
-- Log matching: the logs of a group agree up to any place where their terms agree.
use mathlib.Core.List.Memᴰ
use dssd.Prelude.{
  ℕ, zero, suc, ◌≡◌, refl, inl, String, true, List, [], ◌∷◌, get_elem?, contains, some, some_inj,
  subst, take, length, ◌<◌, Bool-cases, inr, arith, ◌==◌, if◌then◌else◌,
}
use dssd.Raft.State.{Config, LogEntry, init, sentinel}
use dssd.Raft.Log.{Matching}
use dssd.Raft.Cluster.{initial}
use dssd.Raft.Cluster.Safety.{IsConfigured, Inv-initial}
use dssd.Raft.Group.{Group, GroupReach, new_group}
use dssd.Raft.Group.History.{History, Follows, Follows-Matching}
use dssd.Raft.Group.Invariant.{Logged}
use dssd.Raft.Group.Steps.{GroupReach-Logged}

-- Before anybody leads: the sentinel, of term 0.
abbrev pub first_history : History
first_history t = if t == 0 then sentinel ∷ [] else []

sentinel-at :
    (i : ℕ) (e : LogEntry)
    → get_elem? (sentinel ∷ []) i ≡ some e
    → (i < length (first_history e.term))
      × (take (suc i) (sentinel ∷ []) ≡ take (suc i) (first_history e.term))
sentinel-at zero e h =
    subst
      (λ (x : LogEntry).
        (0 < length (first_history x.term))
        × (take 1 (sentinel ∷ []) ≡ take 1 (first_history x.term)))
      (some_inj h) (omega arith, refl)
sentinel-at (suc i) e h = ground arith

nil-Follows : (G : History) → Follows G []
nil-Follows G = record { at = λ i e h. ground arith }

sentinel-Follows : Follows first_history (sentinel ∷ [])
sentinel-Follows = record { at = sentinel-at }

pub Logged-new_group :
    (members : List String) (configs : String → Config) (timeouts : String → ℕ)
    → Logged members (new_group configs timeouts) first_history
unfolding new_group initial init
Logged-new_group members configs timeouts = record {
  follow = λ i mem. sentinel-Follows;
  lead = λ i mem l. cc;
  stood = λ i mem c. cc;
  made = λ t. elim (Bool-cases (t == 0)) [
    | inl start ↦ rw start sentinel-Follows
    | inr later ↦ rw later (nil-Follows first_history)
  ];
  quoted = λ args m. absurd (Memᴰ.not-nil m);
  born = λ t pos. inl (ground arith);
}

-- Log matching. In a group whose members have nonempty names and are configured with the others
-- as peers, where followers get only requests that some leader's replication task has sent, lost,
-- late, reordered or repeated, after any sequence of elections, restarts and other steps, the
-- logs of two members agree up to any place where they have entries of one term.
pub log-Matching :
    (members : List String) (configs : String → Config) (timeouts : String → ℕ) (g : Group)
    → IsConfigured members configs
    → GroupReach members (new_group configs timeouts) g
    → (i j : String) → contains members i ≡ true
    → contains members j ≡ true
    → Matching (g.sys.node i).log (g.sys.node j).log
unfolding new_group
log-Matching members configs timeouts g config run i j mi mj =
    let (_, (G, v)) =
      GroupReach-Logged run (Inv-initial members configs timeouts config)
        (first_history, Logged-new_group members configs timeouts) in
    Follows-Matching G (g.sys.node i).log (g.sys.node j).log (v.follow i mi) (v.follow j mj)
