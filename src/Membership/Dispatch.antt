-- ===== src/Membership/Dispatch.antt =====
-- membership.py: a call reaches the node of its group, and no other.
use dssd.Prelude.{
  ℕ, ◌≡◌, refl, String, Option, some, Dict, lookup, insert, lookup-insert, str_eq, if◌then◌else◌,
}
use dssd.Raft.State.{Raft}
use dssd.Raft.Vote.{RequestVoteArgs, handle_request_vote}
use dssd.Raft.Append.{AppendEntriesArgs, handle_append_entries}
use dssd.Membership.{serve, request_vote, append_entries}

-- Both the reply and the new state are the handler's; the other groups are as before.
pub record Served {ℓ} {Reply : Type ℓ} (handler : Raft → Raft × Reply) (group : String)
    (groups : Dict Raft) (node : Raft) (result : Option (Dict Raft × Reply)) : Type ℓ where
  pub after : Dict Raft
  pub returns : result ≡ some (after, (handler node).1)
  pub nodes :
      (g : String)
      → lookup g after ≡ (if str_eq group g then some (handler node).0 else lookup g groups)

serve-Served {ℓ} :
    {Reply : Type ℓ} (handler : Raft → Raft × Reply) (group : String) (groups : Dict Raft)
    (node : Raft)
    → lookup group groups ≡ some node
    → Served handler group groups node (serve handler group groups)
unfolding serve
serve-Served handler group groups node found = record {
  after = insert group (handler node).0 groups;
  returns = rw (serve, found) refl;
  nodes = λ g. lookup-insert group g (handler node).0 groups;
}

-- An AppendEntries call for a group that the process hosts is answered by the handler of the
-- group's node; this node has the state that the handler leaves, and every other group's is as
-- before.
pub append_entries-Served :
    (now : ℕ) (request : AppendEntriesArgs) (groups : Dict Raft) (node : Raft)
    → lookup request.group groups ≡ some node
    → Served
        (handle_append_entries now request)
        request.group
        groups
        node
        (append_entries now request groups)
unfolding append_entries
append_entries-Served now request groups node found =
    serve-Served (handle_append_entries now request) request.group groups node found

-- A RequestVote call for a group that the process hosts is answered by the handler of the group's
-- node; this node has the state that the handler leaves, and every other group's is as before.
pub request_vote-Served :
    (now : ℕ) (request : RequestVoteArgs) (groups : Dict Raft) (node : Raft)
    → lookup request.group groups ≡ some node
    → Served
        (handle_request_vote now request)
        request.group
        groups
        node
        (request_vote now request groups)
unfolding request_vote
request_vote-Served now request groups node found =
    serve-Served (handle_request_vote now request) request.group groups node found
