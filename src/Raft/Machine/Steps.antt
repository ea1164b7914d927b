-- ===== src/Raft/Machine/Steps.antt =====
-- The steps of the machine that take no request keep the invariant.
use mathlib.Core.List.{Memᴰ}
use mathlib.Core.List.Memᴰ
use dssd.Prelude.{
  ℕ, suc, ◌≡◌, refl, sym, ap, subst, ◌∙◌, inl, inr, String, true, List, ◌∷◌, length, length-drop,
  drop, take-all, contains, Bool-cases, eq_refl, arith,
}
use dssd.Raft.State.{Raft, is_leader, propose}
use dssd.Raft.Vote.{start_election}
use dssd.Raft.Append.{AppendEntriesArgs}
use dssd.Raft.Replicate.{request, replicate_to}
use dssd.Raft.Replicate.Request.{Sent, replicate_to-Sent}
use dssd.Raft.Node
use dssd.Raft.Node.Terms.{Later, Step-Later, propose-Later}
use dssd.Raft.Cluster.{System, Quiet, put, stand, quiet}
use dssd.Raft.Cluster
use dssd.Raft.Cluster.Steps.{Step-Inv}
use dssd.Raft.Group.Effects.{
  Calm, Calm-refl, start-Calm, applier-Calm, run_once-Calm, made, propose-leader, propose-other,
}
use dssd.Raft.Group.History.{History, Quotes}
use dssd.Raft.Machine.{Machine, Alone, restarts, ticks, applies}
use dssd.Raft.Machine.Order.{Has, Has-prefix}
use dssd.Raft.Machine.Kept.{Acks}
use dssd.Raft.Machine.Accept.{end_of, Placed}
use dssd.Raft.Machine.Ballot.{Ends}
use dssd.Raft.Machine.Sound.{Asks, Next, Sound}
use dssd.Raft.Machine.Moves.{Moved-refl, Calm-Sound, make-Moved, make-Sound}
use dssd.Raft.Machine.Elect.{Dated-Ends, stand_calmly}

-- A request goes up to the end of the leader's log.
pub Sent-end : (l : Raft) (args : AppendEntriesArgs) → Sent l args → end_of args ≡ length l.log
Sent-end l args s =
    omega (arith, s.inside, ap length s.rest, length-drop (suc args.prev_log_index) l.log)

Alone-Quiet : (r r' : Raft) → Alone r r' → Quiet r r'
Alone-Quiet r r' (restarts now) = Cluster.Quiet.restarts now
Alone-Quiet r r' (ticks now timeout h) = Cluster.Quiet.ticks now timeout h
Alone-Quiet r r' (applies h) = Cluster.Quiet.applies h

pub Alone-Later : (r r' : Raft) → Alone r r' → Later r r'
Alone-Later r r' (restarts now) = Step-Later (Node.restarts now)
Alone-Later r r' (ticks now timeout h) = Step-Later (Node.ticks now timeout)
Alone-Later r r' (applies h) = Step-Later (Node.applies h)

pub Alone-Calm : (r r' : Raft) → Alone r r' → Calm r r'
Alone-Calm r r' (restarts now) = start-Calm now r
Alone-Calm r r' (ticks now timeout h) = run_once-Calm now timeout r h
Alone-Calm r r' (applies {es = es} h) = applier-Calm r r' es h

Placed-Quotes : (G : History) (args : AppendEntriesArgs) → Placed G args → Quotes G args
Placed-Quotes G args p = record {
  end = end_of args;
  inside = p.inside;
  prev =
      Has-prefix (G args.term) (end_of args) args.prev_log_index args.prev_log_term (omega arith)
        p.prev;
  rest = p.rest;
}

module _ {members : List String} (m : Machine) (G : History) (B : Acks)
    (v : Sound members m G B) where
  -- A step of one member without ballots, and without an entry.
  pub move_soundly :
      (i : String) (r' : Raft)
      → contains members i ≡ true
      → Quiet (m.sys.node i) r'
      → Later (m.sys.node i) r'
      → Calm (m.sys.node i) r'
      → Next members G B (record m { sys = record m.sys { node = put m.sys.node i r' } })
  move_soundly i r' mem q later calm = (
    G,
    B,
    Moved-refl G B,
    Calm-Sound i r' mem v _ _ _ (Step-Inv (quiet i mem q) v.inv) later calm (λ c t w h. h)
        (λ c u w g. inl g),
  )

  pub Alone-Sound :
      (i : String) (r' : Raft)
      → contains members i ≡ true
      → Alone (m.sys.node i) r'
      → Next members G B (record m { sys = record m.sys { node = put m.sys.node i r' } })
  Alone-Sound i r' mem step =
      move_soundly i r' mem (Alone-Quiet (m.sys.node i) r' step)
        (Alone-Later (m.sys.node i) r' step) (Alone-Calm (m.sys.node i) r' step)

  pub propose-Sound :
      (i : String) (command : List ℕ)
      → contains members i ≡ true
      → Next members G B (record m {
        sys = record m.sys { node = put m.sys.node i (propose (m.sys.node i) command).0 };
      })
  propose-Sound i command mem = elim (Bool-cases (is_leader (m.sys.node i).role)) [
    | inr other ↦
        move_soundly i _ mem (Cluster.Quiet.proposes command) (propose-Later (m.sys.node i) command)
          (rw (propose-other (m.sys.node i) command other) (Calm-refl (m.sys.node i)))
    | inl leads ↦
        let whole = v.logged.lead i mem leads in
        (
          _,
          _,
          make-Moved i (m.sys.node i) mem v (made (m.sys.node i) command) refl (inl (sym whole)),
          make-Sound i _ mem v (made (m.sys.node i) command) _ _
              (Step-Inv (quiet i mem (Cluster.Quiet.proposes command)) v.inv)
              (rw (propose-leader (m.sys.node i) command leads)
                (record { log = refl; of_term = refl; term = refl; leads = leads }))
              refl (v.inv.leads i mem leads) (inl (sym whole))
              (λ empty. absurd (omega (arith, ap length whole, (v.dated i mem).full))),
        )
  ]

  pub stand-Sound :
      (i : String) (now timeout : ℕ)
      → contains members i ≡ true
      → Next members G B (record m {
        sys = stand i now timeout m.sys;
        asked = (start_election now timeout (m.sys.node i)).1 ∷ m.asked;
      })
  unfolding stand start_election
  stand-Sound i now timeout mem =
      let v' = stand_calmly m G B v i now timeout mem in
      (
        G,
        B,
        Moved-refl G B,
        record {
          inv = v'.inv;
          logged = v'.logged;
          ord = v'.ord;
          keeps = v'.keeps;
          dated = v'.dated;
          placed = v'.placed;
          replied = v'.replied;
          leads = v'.leads;
          asks = λ args h. elim (Memᴰ.cases_cons h) [
            | inl same ↦ subst (Asks members (stand i now timeout m.sys)) (sym same) new
            | inr before ↦ v'.asks args before
          ];
        },
      )
    where
      named : (m.sys.node i).cfg.id ≡ i
      named = (v.inv.member i mem).id

      ends : Ends (m.sys.node i)
      ends = Dated-Ends G (m.sys.node i) v.ord (v.logged.follow i mem) (v.dated i mem)

      new : Asks members (stand i now timeout m.sys) (start_election now timeout (m.sys.node i)).1
      new = record {
        member = rw named mem;
        past = rw (named, eq_refl i) (omega arith);
        honest = rw (named, eq_refl i) (λ _ _. ends.term);
      }

  pub send-Sound :
      (i peer : String) (term : ℕ) (args : AppendEntriesArgs)
      → contains members i ≡ true
      → replicate_to peer term (m.sys.node i) ≡ request args
      → Next members G B (record m { sent = args ∷ m.sent })
  send-Sound i peer term args mem sent = (
    G,
    B,
    Moved-refl G B,
    record {
      inv = v.inv;
      ord = v.ord;
      keeps = v.keeps;
      dated = v.dated;
      asks = v.asks;
      replied = v.replied;
      leads = v.leads;
      logged = record {
        follow = v.logged.follow;
        lead = v.logged.lead;
        stood = v.logged.stood;
        made = v.logged.made;
        quoted = λ a h. Placed-Quotes G a (placed' a h);
        born = v.logged.born;
      };
      placed = placed';
    },
  )
    where
      s : Sent (m.sys.node i) args
      s = replicate_to-Sent peer term (m.sys.node i) args sent

      whole : (m.sys.node i).log ≡ G args.term
      whole = v.logged.lead i mem s.leads ∙ ap G (sym s.term)

      size : end_of args ≡ length (G args.term)
      size = omega (arith, ap length whole, Sent-end (m.sys.node i) args s)

      placed : Placed G args
      placed = record {
        inside = omega (arith, size);
        last = rw size (v.ord.last args.term (omega (arith, size)));
        prev = subst (λ l. Has l args.prev_log_index args.prev_log_term) whole s.prev;
        rest =
            ap (drop (suc args.prev_log_index))
              (take-all (end_of args) (G args.term) (omega (arith, size)) ∙ sym whole)
            ∙ s.rest;
      }

      placed' : (a : AppendEntriesArgs) → Memᴰ a (args ∷ m.sent) → Placed G a
      placed' a h = elim (Memᴰ.cases_cons h) [
        | inl same ↦ subst (Placed G) (sym same) placed
        | inr before ↦ v.placed a before
      ]
