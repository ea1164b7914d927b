-- ===== src/Raft/Cluster/Steps.antt =====
-- Every step of the group keeps the invariant.
use dssd.Prelude.{String, List}
use dssd.Raft.State.{Raft}
use dssd.Raft.Cluster.{
  System, put, Quiet, Step, campaigns, answers, hears, quiet, Reach, here, later,
}
use dssd.Raft.Cluster.Roles.{Quiet-NoNewLeader, Quiet-Later}
use dssd.Raft.Cluster.Invariant.{Inv, put-IsMember, put-Cast, put-Elected}
use dssd.Raft.Cluster.Answer.{answer-Inv}
use dssd.Raft.Cluster.Stand.{stand-Inv}
use dssd.Raft.Cluster.Hear.{hear-Inv}

-- A step without ballots.
pub Quiet-Inv :
    (members : List String) (s : System) (i : String) (r' : Raft)
    → Quiet (s.node i) r'
    → Inv members s
    → Inv members (record s { node = put s.node i r' })
Quiet-Inv members s i r' q v = record {
  member = put-IsMember members s i r' (Quiet-Later q) v;
  cast = put-Cast members s i r' (Quiet-Later q) v;
  single = v.single;
  tally = v.tally;
  leads =
      put-Elected members s i r' (Quiet-Later q) v s.granted (λ c t w g. g) (Quiet-NoNewLeader q);
}

-- Every step of the group keeps the invariant.
pub Step-Inv :
    {members : List String} {s u : System} → Step members s u → Inv members s → Inv members u
Step-Inv {members} {s} (campaigns i now timeout mem) v = stand-Inv members s i now timeout mem v
Step-Inv {members} {s} (answers w now args mem named) v = answer-Inv members s w now args named v
Step-Inv {members} {s} (hears c t p now reply mem peer first sent) v =
    hear-Inv members s c t p now reply mem peer first sent v
Step-Inv {members} {s} (quiet i {r'} mem q) v = Quiet-Inv members s i r' q v

pub Reach-Inv :
    {members : List String} {s u : System} → Reach members s u → Inv members s → Inv members u
Reach-Inv here v = v
Reach-Inv (later run step) v = Step-Inv step (Reach-Inv run v)
