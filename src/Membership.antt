-- ===== src/Membership.antt =====
-- membership.py: the services of a process, which pass a call on to the Raft node of its group, and
-- list the members that the SWIM node knows.
pub mod Dispatch
use dssd.Prelude.{ℕ, String, Option, none, some, List, map, Dict, lookup, insert}
use dssd.Raft.State.{Raft}
use dssd.Raft.Vote.{RequestVoteArgs, RequestVoteReply, handle_request_vote}
use dssd.Raft.Append.{AppendEntriesArgs, AppendEntriesReply, handle_append_entries}
use dssd.Swim.Member.{Member, State, alive, suspect, dead}
use dssd.Swim.Gossip.{Node, all_members}

-- `self._groups[group]` and the handler's call; `none` is the KeyError.
unfoldable pub serve {ℓ} :
    {Reply : Type ℓ}
    → (handler : Raft → Raft × Reply) (group : String) → Dict Raft
    → Option (Dict Raft × Reply)
serve handler group groups = elim (lookup group groups) [
  | none ↦ none
  | some node ↦ some (insert group (handler node).0 groups, (handler node).1)
]

-- `RaftService.RequestVote`
unfoldable pub request_vote :
    (now : ℕ) → RequestVoteArgs → Dict Raft → Option (Dict Raft × RequestVoteReply)
request_vote now request groups = serve (handle_request_vote now request) request.group groups

-- `RaftService.AppendEntries`
unfoldable pub append_entries :
    (now : ℕ) → AppendEntriesArgs → Dict Raft → Option (Dict Raft × AppendEntriesReply)
append_entries now request groups = serve (handle_append_entries now request) request.group groups

-- The proto's Member.
pub record MemberView : Type 0 where
  pub id : String
  pub addr : String
  pub state : String
  pub incarnation : ℕ

abbrev pub state_name : State → String
state_name alive = "ALIVE"
state_name suspect = "SUSPECT"
state_name dead = "DEAD"

abbrev pub view : Member → MemberView
view m = record {
  id = m.id;
  addr = m.addr;
  state = state_name m.state;
  incarnation = m.incarnation;
}

-- `MembershipService.GetMembers`
unfoldable pub get_members : Node → List MemberView
get_members n = map view (all_members n)
