-- ===== src/Raft/Machine.antt =====
-- A Raft group in which every message is one that some member has sent: the steps of `Group`, with
-- the vote requests and the replies to AppendEntries requests under way as well.
pub mod Order
pub mod Kept
pub mod Keeping
pub mod Complete
pub mod Changes
pub mod Accept
pub mod Follow
pub mod Ballot
pub mod Sound
pub mod Moves
pub mod Elect
pub mod Hear
pub mod Steps
pub mod Answers
pub mod Fine
pub mod Still
pub mod Counts
pub mod Commits
pub mod Takes
pub mod Committed
pub mod Start
pub mod Forward
pub mod Delivered
pub mod Replicas
pub mod Safety
use mathlib.Core.List.{Memᴰ}
use dssd.Prelude.{ℕ, ◌≡◌, ◌≢◌, String, Bool, true, false, some, List, [], ◌∷◌, contains}
use dssd.Raft.State.{Raft, Config, LogEntry, start, propose}
use dssd.Raft.Vote.{RequestVoteArgs, RequestVoteReply, Election, start_election}
use dssd.Raft.Append.{AppendEntriesArgs, AppendEntriesReply, handle_append_entries}
use dssd.Raft.Replicate.{request, replicate_to, on_append_reply}
use dssd.Raft.Apply.{run_once, campaign, applier}
use dssd.Raft.Cluster.{System, put, stand, answer, hear}
use dssd.Raft.Group.{Group, receive, new_group}

-- A follower's answer to a request.
pub record Answer : Type 0 where
  pub from : String
  pub args : AppendEntriesArgs
  pub reply : AppendEntriesReply

pub record Machine : Type 0 where
  pub sys : System
  pub asked : List RequestVoteArgs
  pub sent : List AppendEntriesArgs
  pub replies : List Answer

-- A member's steps without a message.
pub data Alone (r : Raft) : Raft → Type 0 where
  restarts : (now : ℕ) → Alone r (start now r)
  ticks :
      (now timeout : ℕ)
      → ((args : RequestVoteArgs) (e : Election) → (run_once now timeout r).1 ≢ campaign args e)
      → Alone r (run_once now timeout r).0
  applies : {r' : Raft} {es : List LogEntry} → applier r ≡ some (r', es) → Alone r r'

pub data MachineStep (members : List String) (m : Machine) : Machine → Type 0 where
  alone :
      (i : String) {r' : Raft}
      → contains members i ≡ true
      → Alone (m.sys.node i) r'
      → MachineStep members m (record m { sys = record m.sys { node = put m.sys.node i r' } })
  proposes :
      (i : String) (command : List ℕ)
      → contains members i ≡ true
      → MachineStep members m (record m {
        sys = record m.sys { node = put m.sys.node i (propose (m.sys.node i) command).0 };
      })
  stands :
      (i : String) (now timeout : ℕ)
      → contains members i ≡ true
      → MachineStep members m (record m {
        sys = stand i now timeout m.sys;
        asked = (start_election now timeout (m.sys.node i)).1 ∷ m.asked;
      })
  answers :
      (v : String) (now : ℕ) (args : RequestVoteArgs)
      → contains members v ≡ true
      → args.candidate_id ≢ ""
      → Memᴰ args m.asked
      → MachineStep members m (record m { sys = answer v now args m.sys })
  counts :
      (c : String) (t : ℕ) (p : String) (now : ℕ) (reply : RequestVoteReply)
      → contains members c ≡ true
      → contains (m.sys.node c).cfg.peers p ≡ true
      → m.sys.counted c t p ≡ false
      → (reply.vote_granted ≡ true → m.sys.granted c t p ≡ true)
      → MachineStep members m (record m { sys = hear c t p now reply m.sys })
  sends :
      (i peer : String) (term : ℕ) (args : AppendEntriesArgs)
      → contains members i ≡ true
      → replicate_to peer term (m.sys.node i) ≡ request args
      → MachineStep members m (record m { sent = args ∷ m.sent })
  receives :
      (j : String) (now : ℕ) (args : AppendEntriesArgs)
      → contains members j ≡ true
      → Memᴰ args m.sent
      → MachineStep members m (record m {
        sys = receive j now args m.sys;
        replies =
            record {
              from = j;
              args = args;
              reply = (handle_append_entries now args (m.sys.node j)).1;
            }
            ∷ m.replies;
      })
  gets :
      (i : String) (now : ℕ) (a : Answer) {r' : Raft}
      → contains members i ≡ true
      → contains (m.sys.node i).cfg.peers a.from ≡ true
      → Memᴰ a m.replies
      → on_append_reply now a.from a.args (some a.reply) (m.sys.node i) ≡ some r'
      → MachineStep members m (record m { sys = record m.sys { node = put m.sys.node i r' } })

-- All members as they are made, and no message.
unfoldable pub new_machine : (configs : String → Config) (timeouts : String → ℕ) → Machine
unfolding new_group
new_machine configs timeouts = record {
  sys = (new_group configs timeouts).sys;
  asked = [];
  sent = [];
  replies = [];
}

pub data MachineReach (members : List String) (m : Machine) : Machine → Type 0 where
  starts : MachineReach members m m
  runs :
      {k l : Machine}
      → MachineReach members m k
      → MachineStep members k l
      → MachineReach members m l
