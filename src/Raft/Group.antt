-- ===== src/Raft/Group.antt =====
-- A Raft group with its AppendEntries requests: the steps of `Cluster`, in which a follower gets
-- only what some leader's replication task has sent, late, again, or never.
pub mod History
pub mod Effects
pub mod Invariant
pub mod Lead
pub mod Moves
pub mod Election
pub mod Steps
pub mod Safety
use mathlib.Core.List.{Memᴰ}
use dssd.Prelude.{ℕ, ◌≡◌, String, Bool, true, false, List, [], ◌∷◌, contains}
use dssd.Raft.State.{Raft, Config}
use dssd.Raft.Append.{AppendEntriesArgs, handle_append_entries}
use dssd.Raft.Replicate.{request, replicate_to}
use dssd.Raft.Cluster.{
  System, Quiet, restarts, proposes, ticks, follows, hears, applies, Step, campaigns, answers,
  quiet, put, initial,
}
use dssd.Raft.Cluster

-- The requests that were sent stay under way for good.
pub record Group : Type 0 where
  pub sys : System
  pub sent : List AppendEntriesArgs

-- A step that takes no AppendEntries request.
abbrev pub is_own_move : {r r' : Raft} → Quiet r r' → Bool
is_own_move (restarts now) = true
is_own_move (proposes command) = true
is_own_move (ticks now timeout h) = true
is_own_move (follows now args) = false
is_own_move (hears now peer args reply h) = true
is_own_move (applies h) = true

abbrev pub is_own : {members : List String} {s u : System} → Step members s u → Bool
is_own (campaigns i now timeout mem) = true
is_own (answers v now args mem named) = true
is_own (Cluster.Step.hears c t p now reply mem peer first granted) = true
is_own (quiet i mem q) = is_own_move q

-- A member gets a request.
unfoldable pub receive : (j : String) (now : ℕ) → AppendEntriesArgs → System → System
unfolding handle_append_entries
receive j now args s = record s {
  node = put s.node j (handle_append_entries now args (s.node j)).0;
}

pub data GroupStep (members : List String) (g : Group) : Group → Type 0 where
  moves :
      {u : System} (step : Step members g.sys u)
      → is_own step ≡ true
      → GroupStep members g (record g { sys = u })
  sends :
      (i peer : String) (term : ℕ) (args : AppendEntriesArgs)
      → contains members i ≡ true
      → replicate_to peer term (g.sys.node i) ≡ request args
      → GroupStep members g (record g { sent = args ∷ g.sent })
  receives :
      (j : String) (now : ℕ) (args : AppendEntriesArgs)
      → contains members j ≡ true
      → Memᴰ args g.sent
      → GroupStep members g (record g { sys = receive j now args g.sys })

-- All members as they are made, and nothing sent.
unfoldable pub new_group : (configs : String → Config) (timeouts : String → ℕ) → Group
unfolding initial
new_group configs timeouts = record { sys = initial configs timeouts; sent = [] }

pub data GroupReach (members : List String) (g : Group) : Group → Type 0 where
  begins : GroupReach members g g
  goes_on : {h k : Group} → GroupReach members g h → GroupStep members h k → GroupReach members g k
