-- ===== src/Raft/Group/Steps.antt =====
-- Every step of the group keeps what the logs say of the history, for a history that may have grown.
use mathlib.Core.List.{Memᴰ}
use mathlib.Core.List.Memᴰ
use dssd.Prelude.{
  ℕ, ◌≡◌, sym, ap, subst, ◌∙◌, inl, inr, String, true, List, ◌∷◌, length, contains, take, take-all,
  arith,
}
use dssd.Raft.Append.{AppendEntriesArgs, handle_append_entries}
use dssd.Raft.Replicate.{request, replicate_to}
use dssd.Raft.Replicate.Request.{Sent, replicate_to-Sent}
use dssd.Raft.Node.Terms.{handle_append_entries-Later}
use dssd.Raft.Cluster.{
  System, Quiet, restarts, proposes, ticks, follows, hears, applies, Step, campaigns, answers,
  quiet, put, mark, stand, answer, hear,
}
use dssd.Raft.Cluster
use dssd.Raft.Cluster.Invariant.{Inv}
use dssd.Raft.Cluster.Steps.{Step-Inv}
use dssd.Raft.Group.{
  Group, GroupStep, moves, sends, receives, GroupReach, begins, goes_on, is_own, receive,
}
use dssd.Raft.Group.Effects.{handle_append_entries-cases}
use dssd.Raft.Group.History.{History, Quotes, append_loop-Follows}
use dssd.Raft.Group.Invariant.{Logged, rest-Logged}
use dssd.Raft.Group.Moves.{HasHistory, move_calmly, Quiet-Logged}
use dssd.Raft.Group.Election.{stand-Logged, answer-Logged, hear-Logged}

module _ {members : List String} (g : Group) (G : History) (inv : Inv members g.sys)
    (v : Logged members g G) where
  receive-Logged :
      (j : String) (now : ℕ) (args : AppendEntriesArgs)
      → contains members j ≡ true
      → Memᴰ args g.sent
      → HasHistory members (record g { sys = receive j now args g.sys })
  unfolding receive
  receive-Logged j now args mem sent = elim (handle_append_entries-cases now args (g.sys.node j)) [
    | inl (calm, _) ↦
        move_calmly g G inv v j (handle_append_entries now args (g.sys.node j)).0 mem
          (handle_append_entries-Later now args (g.sys.node j)) calm
    | inr accepts ↦ (
      G,
      rest-Logged members g G j (handle_append_entries now args (g.sys.node j)).0 g.sys.votes
          g.sys.granted g.sys.counted (λ c t w h. h) v
          (record {
            follow = rw accepts.log (
                append_loop-Follows G (g.sys.node j).log args (v.follow j mem) (v.made args.term)
                  (v.quoted args sent) accepts.has);
            lead = λ l. ground (arith, l, accepts.not_leader);
            stands = λ c. ground (arith, c, accepts.not_candidate);
            term = (handle_append_entries-Later now args (g.sys.node j)).term;
          }),
    )
  ]

  send-Logged :
      (i peer : String) (term : ℕ) (args : AppendEntriesArgs)
      → contains members i ≡ true
      → replicate_to peer term (g.sys.node i) ≡ request args
      → HasHistory members (record g { sent = args ∷ g.sent })
  send-Logged i peer term args mem sent =
      let s : Sent (g.sys.node i) args = replicate_to-Sent peer term (g.sys.node i) args sent in
      let whole : (g.sys.node i).log ≡ G args.term = v.lead i mem s.leads ∙ ap G (sym s.term) in
      let all : take (length (G args.term)) (G args.term) ≡ (g.sys.node i).log =
        take-all (length (G args.term)) (G args.term) (omega arith) ∙ sym whole in
      let quotes : Quotes G args = record {
        end = length (G args.term);
        inside = omega arith;
        prev = rw all s.prev;
        rest = rw all s.rest;
      } in
      (
        G,
        record {
          follow = v.follow;
          lead = v.lead;
          stood = v.stood;
          made = v.made;
          quoted = λ a m. elim (Memᴰ.cases_cons m) [
            | inl same ↦ subst (Quotes G) (sym same) quotes
            | inr before ↦ v.quoted a before
          ];
          born = v.born;
        },
      )

  move-Logged :
      {u : System} (step : Step members g.sys u)
      → is_own step ≡ true
      → HasHistory members (record g { sys = u })
  move-Logged (campaigns i now timeout mem) own = stand-Logged g G inv v i now timeout mem
  move-Logged (answers w now args mem named) own = answer-Logged g G inv v w now args mem
  move-Logged (Cluster.Step.hears c t p now reply mem peer first granted) own =
      hear-Logged g G inv v c t p now reply mem
        (Step-Inv (Cluster.Step.hears c t p now reply mem peer first granted) inv)
  move-Logged (quiet i mem q) own = Quiet-Logged g G inv v i q mem own

pub GroupStep-Logged :
    {members : List String} {g h : Group}
    → GroupStep members g h
    → Inv members g.sys
    → HasHistory members g
    → HasHistory members h
GroupStep-Logged {members} {g} (moves step own) inv (G, v) = move-Logged g G inv v step own
GroupStep-Logged {members} {g} (sends i peer term args mem sent) inv (G, v) =
    send-Logged g G inv v i peer term args mem sent
GroupStep-Logged {members} {g} (receives j now args mem sent) inv (G, v) =
    receive-Logged g G inv v j now args mem sent

-- A group's step is one of `Cluster`, or none.
pub GroupStep-Inv :
    {members : List String} {g h : Group}
    → GroupStep members g h
    → Inv members g.sys
    → Inv members h.sys
unfolding receive
GroupStep-Inv (moves step own) inv = Step-Inv step inv
GroupStep-Inv (sends i peer term args mem sent) inv = inv
GroupStep-Inv (receives j now args mem sent) inv = Step-Inv (quiet j mem (follows now args)) inv

pub GroupReach-Logged :
    {members : List String} {g h : Group}
    → GroupReach members g h
    → Inv members g.sys
    → HasHistory members g
    → Inv members h.sys × HasHistory members h
GroupReach-Logged begins inv logged = (inv, logged)
GroupReach-Logged (goes_on run step) inv logged =
    let (inv', logged') = GroupReach-Logged run inv logged in
    (GroupStep-Inv step inv', GroupStep-Logged step inv' logged')
