-- ===== src/Raft/Machine/Answers.antt =====
-- Followers' answers to requests, and the invariant along the whole run of a machine.
use mathlib.Core.List.{Memᴰ}
use mathlib.Core.List.Memᴰ
use native.Mathlib.Decide.{dec_lt}
use dssd.Prelude.{
  ℕ, ◌≤◌, ◌≡◌, refl, sym, subst, ◌⊎◌, inl, inr, String, true, some, List, ◌∷◌, contains, arith,
}
use dssd.Raft.State.{Raft}
use dssd.Raft.Append.{AppendEntriesArgs, handle_append_entries}
use dssd.Raft.Replicate.{on_append_reply}
use dssd.Raft.Node
use dssd.Raft.Node.Terms.{Later, Step-Later, handle_append_entries-Later}
use dssd.Raft.Cluster.{System, Quiet, put, stand, quiet}
use dssd.Raft.Cluster
use dssd.Raft.Cluster.Invariant.{Inv}
use dssd.Raft.Cluster.Steps.{Step-Inv}
use dssd.Raft.Group.{receive}
use dssd.Raft.Group.Effects.{Accepts, on_append_reply-Calm, handle_append_entries-cases}
use dssd.Raft.Group.History.{History}
use dssd.Raft.Machine.{
  Machine, Answer, MachineStep, alone, proposes, stands, answers, counts, sends, receives, gets,
  MachineReach, starts, runs,
}
use dssd.Raft.Machine.Kept.{Acks}
use dssd.Raft.Machine.Changes.{acked-hit}
use dssd.Raft.Machine.Accept.{end_of}
use dssd.Raft.Machine.Sound.{Moved, Next, Sound, Replied}
use dssd.Raft.Machine.Moves.{Moved-refl, Calm-Sound, accept-Moved, accept-Sound}
use dssd.Raft.Machine.Elect.{answer_calmly}
use dssd.Raft.Machine.Hear.{HasSound, hear-Sound}
use dssd.Raft.Machine.Steps.{move_soundly, Alone-Sound, propose-Sound, stand-Sound, send-Sound}

module _ {members : List String} (m : Machine) (G : History) (B : Acks)
    (v : Sound members m G B) where
  -- The follower's answer goes to the others.
  reply-Sound :
      (j : String) (now : ℕ) (args : AppendEntriesArgs) (B' : Acks)
      → Moved G B G B'
      → Sound members (record m { sys = receive j now args m.sys }) G B'
      → ((handle_append_entries now args (m.sys.node j)).1.success ≡ true
          → end_of args ≤ B' j args.term)
      → Next members G B (record m {
        sys = receive j now args m.sys;
        replies =
            record {
              from = j;
              args = args;
              reply = (handle_append_entries now args (m.sys.node j)).1;
            }
            ∷ m.replies;
      })
  reply-Sound j now args B' moved v' ok = (
    G,
    B',
    moved,
    record {
      inv = v'.inv;
      logged = v'.logged;
      ord = v'.ord;
      keeps = v'.keeps;
      dated = v'.dated;
      placed = v'.placed;
      asks = v'.asks;
      leads = v'.leads;
      replied = λ a h. elim (Memᴰ.cases_cons h) [
        | inl same ↦ subst (Replied B') (sym same) ok
        | inr before ↦ v'.replied a before
      ];
    },
  )

  receive-Sound :
      (j : String) (now : ℕ) (args : AppendEntriesArgs)
      → contains members j ≡ true
      → Memᴰ args m.sent
      → Next members G B (record m {
        sys = receive j now args m.sys;
        replies =
            record {
              from = j;
              args = args;
              reply = (handle_append_entries now args (m.sys.node j)).1;
            }
            ∷ m.replies;
      })
  unfolding receive
  receive-Sound j now args mem sent = elim (handle_append_entries-cases now args (m.sys.node j)) [
    | inl (calm, failed) ↦
        reply-Sound j now args B (Moved-refl G B)
          (Calm-Sound j _ mem v _ _ _ inv' later calm (λ c t w h. h) (λ c u w g. inl g))
          (λ ok. ground (arith, failed, ok))
    | inr a ↦ elim (dec_lt (B j args.term) (end_of args)) [
      | yes more ↦ taken a (end_of args) (omega arith) (omega arith) (inr refl)
      | no less ↦ taken a (B j args.term) (omega arith) (omega arith) (inl refl)
    ]
  ]
    where
      later : Later (m.sys.node j) (handle_append_entries now args (m.sys.node j)).0
      later = handle_append_entries-Later now args (m.sys.node j)

      inv' : Inv members (receive j now args m.sys)
      inv' = Step-Inv (quiet j mem (Cluster.Quiet.follows now args)) v.inv

      taken :
          Accepts args (m.sys.node j) (handle_append_entries now args (m.sys.node j)).0
          → (k : ℕ) → B j args.term ≤ k
          → end_of args ≤ k
          → (k ≡ B j args.term) ⊎ (k ≡ end_of args)
          → Next members G B (record m {
            sys = receive j now args m.sys;
            replies =
                record {
                  from = j;
                  args = args;
                  reply = (handle_append_entries now args (m.sys.node j)).1;
                }
                ∷ m.replies;
          })
      taken a k more all one =
          reply-Sound j now args _
            (accept-Moved j (handle_append_entries now args (m.sys.node j)).0 mem v args k more)
            (accept-Sound j _ mem v args k inv' later a (v.placed args sent)
              (v.logged.quoted args sent) more all one)
            (λ _. omega (arith, acked-hit B j args.term k))

  get-Sound :
      (i : String) (now : ℕ) (a : Answer) (r' : Raft)
      → contains members i ≡ true
      → on_append_reply now a.from a.args (some a.reply) (m.sys.node i) ≡ some r'
      → Next members G B (record m { sys = record m.sys { node = put m.sys.node i r' } })
  get-Sound i now a r' mem h =
      move_soundly m G B v i r' mem (Cluster.Quiet.hears now a.from a.args (some a.reply) h)
        (Step-Later (Node.hears now a.from a.args (some a.reply) h))
        (on_append_reply-Calm now a.from a.args (some a.reply) (m.sys.node i) r' h)

pub MachineStep-Sound :
    {members : List String} {m k : Machine} {G : History} {B : Acks}
    → MachineStep members m k
    → Sound members m G B
    → Next members G B k
MachineStep-Sound {m = m} {G = G} {B = B} (alone i {r'} mem step) v =
    Alone-Sound m G B v i r' mem step
MachineStep-Sound {m = m} {G = G} {B = B} (proposes i command mem) v =
    propose-Sound m G B v i command mem
MachineStep-Sound {m = m} {G = G} {B = B} (stands i now timeout mem) v =
    stand-Sound m G B v i now timeout mem
MachineStep-Sound {m = m} {G = G} {B = B} (answers w now args mem named asked) v =
    (G, B, Moved-refl G B, answer_calmly m G B v w now args mem named asked)
MachineStep-Sound {m = m} {G = G} {B = B} (counts c t p now reply mem peer first granted) v =
    hear-Sound m G B v c t p now reply mem
      (Step-Inv (Cluster.Step.hears c t p now reply mem peer first granted) v.inv)
MachineStep-Sound {m = m} {G = G} {B = B} (sends i peer term args mem sent) v =
    send-Sound m G B v i peer term args mem sent
MachineStep-Sound {m = m} {G = G} {B = B} (receives j now args mem sent) v =
    receive-Sound m G B v j now args mem sent
MachineStep-Sound {m = m} {G = G} {B = B} (gets i now a {r'} mem peer got h) v =
    get-Sound m G B v i now a r' mem h

pub MachineReach-Sound :
    {members : List String} {m k : Machine}
    → MachineReach members m k
    → HasSound members m
    → HasSound members k
MachineReach-Sound starts v = v
MachineReach-Sound (runs run step) v =
    let (G, B, w) = MachineReach-Sound run v in
    let (G', B', moved, w') = MachineStep-Sound step w in (G', B', w')
