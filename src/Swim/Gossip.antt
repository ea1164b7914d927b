-- ===== src/Swim/Gossip.antt =====
-- swim.py, lines 100-119, 147-160, 228-248 and 271-293: a node's tables, and what gossip does to
-- them. A suspicion timer that is running is an entry of `timers`.
pub mod Lookup
pub mod Convergence
pub mod Refute
pub mod Suspicion
pub mod Queue
pub mod Sound
use dssd.Prelude.{
  ℕ, ◌+◌, String, Bool, true, false, not, ◌&&◌, ◌||◌, Option, none, some, List, [], ◌∷◌, ◌++◌, map,
  take, get_elem?, ltb, leb, ◌==◌, str_eq, if◌then◌else◌, Dict, lookup, insert, remove, values,
}
use dssd.Swim.Member.{
  State, alive, suspect, dead, same_state, Member, supersedes, max_transmits_per_update,
  max_updates_per_message,
}

pub record Node : Type 0 where
  pub id : String  -- `cfg.id`
  pub addr : String  -- `_bind_addr`, of a node that is started
  pub members : Dict Member
  pub incarnation : ℕ
  pub waiters : List (ℕ × Bool)  -- sequence number, and whether the future is done
  pub seq_no : ℕ
  pub broadcasts : Dict (Member × ℕ)  -- latest update, times sent
  pub timers : List Member

unfoldable pub fresh : (id addr : String) → Node
fresh id addr = record {
  id = id;
  addr = addr;
  members = [];
  incarnation = 0;
  waiters = [];
  seq_no = 0;
  broadcasts = [];
  timers = [];
}

abbrev pub me : Node → Member
me n = record { id = n.id; addr = n.addr; state = alive; incarnation = n.incarnation }

-- Everything this node knows about, itself included.
abbrev pub all_members : Node → List Member
all_members n = me n ∷ values n.members

-- `old is None or old.state != State.SUSPECT`
abbrev pub newly_suspect : Option Member → Bool
newly_suspect none = true
newly_suspect (some old) = not (same_state old.state suspect)

-- `_set`: records a change, queues it for gossip, and starts a timer for a new suspicion.
unfoldable pub set_member : Member → Node → Node
set_member m n = record n {
  members = insert m.id m n.members;
  broadcasts = insert m.id (m, 0) n.broadcasts;
  timers =
      if same_state m.state suspect && newly_suspect (lookup m.id n.members)
      then n.timers ++ m ∷ []
      else n.timers;
}

-- `incarnation is not None and current.incarnation != incarnation`
abbrev pub differs : ℕ → Option ℕ → Bool
differs i none = false
differs i (some j) = not (i == j)

unfoldable pub mark_current :
    (new_state from_state : State) → Option ℕ → Option Member → Node → Node
unfolding set_member
mark_current new_state from_state incarnation none n = n
mark_current new_state from_state incarnation (some current) n =
    if not (same_state current.state from_state)
    then n
    else if differs current.incarnation incarnation
    then n
    else set_member (record current { state = new_state }) n

-- `_mark`
unfoldable pub mark : (id : String) (new_state from_state : State) → Option ℕ → Node → Node
unfolding mark_current
mark id new_state from_state incarnation n =
    mark_current new_state from_state incarnation (lookup id n.members) n

-- The end of `_suspicion_timer` for this member.
unfoldable pub expire : Member → Node → Node
unfolding mark
expire m n = mark m.id dead suspect (some m.incarnation) n

-- A rumour about this node itself.
unfoldable pub refute : Member → Node → Node
refute update n =
    if not (same_state update.state alive) && leb n.incarnation update.incarnation
    then record n {
      incarnation = update.incarnation + 1;
      broadcasts =
          insert n.id (record (me n) { incarnation = update.incarnation + 1 }, 0) n.broadcasts;
    }
    else n

unfoldable pub merge_other : Member → Option Member → Node → Node
unfolding set_member
merge_other update none n = if not (same_state update.state dead) then set_member update n else n
merge_other update (some current) n = if supersedes update current then set_member update n else n

-- `_merge`: applies one piece of gossip.
unfoldable pub merge : Member → Node → Node
unfolding refute merge_other
merge update n =
    if str_eq update.id n.id
    then refute update n
    else merge_other update (lookup update.id n.members) n

unfoldable pub merge_all : List Member → Node → Node
unfolding merge
merge_all [] n = n
merge_all (u ∷ us) n = merge_all us (merge u n)

-- An entry of `_broadcasts` with its key.
abbrev pub Queued : Type 0
Queued = String × (Member × ℕ)

abbrev pub sent_count : Queued → ℕ
sent_count q = q.1.1

abbrev pub update_of : Queued → Member
update_of q = q.1.0

-- `sorted(…, key=lambda entry: entry[1])`, which is stable: an entry goes before the first that
-- was not sent less often.
unfoldable pub insert_sorted : Queued → List Queued → List Queued
insert_sorted x [] = x ∷ []
insert_sorted x (y ∷ ys) =
    if leb (sent_count x) (sent_count y) then x ∷ y ∷ ys else y ∷ insert_sorted x ys

unfoldable pub sort : List Queued → List Queued
unfolding insert_sorted
sort [] = []
sort (x ∷ xs) = insert_sorted x (sort xs)

-- One turn of the loop over the entries that are due: the entry counts one more transmission,
-- and is dropped with the last. Its key is the member's id (`Keyed`), so `del` finds it.
unfoldable pub transmit : Queued → Dict (Member × ℕ) → Dict (Member × ℕ)
unfolding insert remove
transmit q d =
    let d' = insert q.0 (update_of q, sent_count q + 1) d in
    if leb max_transmits_per_update (sent_count q + 1) then remove (update_of q).id d' else d'

unfoldable pub transmit_all : List Queued → Dict (Member × ℕ) → Dict (Member × ℕ)
unfolding transmit
transmit_all [] d = d
transmit_all (q ∷ qs) d = transmit_all qs (transmit q d)

abbrev pub due : Node → List Queued
due n = take max_updates_per_message (sort n.broadcasts)

-- `_take_broadcasts`: the least gossiped updates first, each dropped after its last transmission.
unfoldable pub take_broadcasts : Node → Node × List Member
unfolding transmit_all sort
take_broadcasts n =
    (record n { broadcasts = transmit_all (due n) n.broadcasts }, map update_of (due n))
