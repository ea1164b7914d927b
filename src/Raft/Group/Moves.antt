-- ===== src/Raft/Group/Moves.antt =====
-- A member's own steps, and what they do to the history.
use dssd.Prelude.{
  ℕ, ◌≡◌, refl, sym, inl, inr, String, true, List, [], ◌∷◌, ◌++◌, contains, Bool-cases, arith,
}
use dssd.Raft.State.{Raft, is_leader, propose}
use dssd.Raft.Node
use dssd.Raft.Node.Terms.{Later, Step-Later}
use dssd.Raft.Cluster.{Quiet, restarts, proposes, ticks, follows, hears, applies, put}
use dssd.Raft.Cluster.Invariant.{Inv}
use dssd.Raft.Group.{Group, is_own_move}
use dssd.Raft.Group.Effects.{
  Calm, Calm-refl, start-Calm, on_append_reply-Calm, applier-Calm, run_once-Calm, made,
  propose-leader, propose-other,
}
use dssd.Raft.Group.History.{History}
use dssd.Raft.Group.Invariant.{Logged, Rests, Calm-Rests, rest-Logged}
use dssd.Raft.Group.Lead.{with_log, make-Logged}

-- Some history fits.
abbrev pub HasHistory : List String → Group → Type 0
HasHistory members g = (G : History) × Logged members g G

module _ {members : List String} (g : Group) (G : History) (inv : Inv members g.sys)
    (v : Logged members g G) where
  pub move-Rests :
      (i : String) (r' : Raft)
      → contains members i ≡ true
      → Later (g.sys.node i) r'
      → Calm (g.sys.node i) r'
      → Rests G (g.sys.node i) r'
  move-Rests i r' mem later calm =
      Calm-Rests G (g.sys.node i) r' (v.follow i mem) (v.lead i mem) later.term calm

  -- A step of one member without ballots that leaves the history alone.
  pub move_calmly :
      (i : String) (r' : Raft)
      → contains members i ≡ true
      → Later (g.sys.node i) r'
      → Calm (g.sys.node i) r'
      → HasHistory members (record g { sys = record g.sys { node = put g.sys.node i r' } })
  move_calmly i r' mem later calm = (
    G,
    rest-Logged members g G i r' g.sys.votes g.sys.granted g.sys.counted (λ c t w h. h) v
        (move-Rests i r' mem later calm),
  )

  propose-Logged :
      (i : String) (command : List ℕ)
      → contains members i ≡ true
      → HasHistory members (record g {
        sys = record g.sys { node = put g.sys.node i (propose (g.sys.node i) command).0 };
      })
  propose-Logged i command mem = elim (Bool-cases (is_leader (g.sys.node i).role)) [
    | inl leads ↦ (
      with_log G (g.sys.node i).current_term
          ((g.sys.node i).log ++ made (g.sys.node i) command ∷ []),
      make-Logged members g G i (propose (g.sys.node i) command).0 (made (g.sys.node i) command)
          g.sys.votes g.sys.counted mem (inv.leads i mem leads) (inl (sym (v.lead i mem leads)))
          (rw (propose-leader (g.sys.node i) command leads)
            (record { log = refl; of_term = refl; term = refl; leads = leads }))
          inv v,
    )
    | inr other ↦
        move_calmly i (propose (g.sys.node i) command).0 mem (Step-Later (Node.proposes command))
          (rw (propose-other (g.sys.node i) command other) (Calm-refl (g.sys.node i)))
  ]

  pub Quiet-Logged :
      (i : String) {r' : Raft} (q : Quiet (g.sys.node i) r')
      → contains members i ≡ true
      → is_own_move q ≡ true
      → HasHistory members (record g { sys = record g.sys { node = put g.sys.node i r' } })
  Quiet-Logged i (restarts now) mem own =
      move_calmly i _ mem (Step-Later (Node.restarts now)) (start-Calm now (g.sys.node i))
  Quiet-Logged i (proposes command) mem own = propose-Logged i command mem
  Quiet-Logged i (ticks now timeout h) mem own =
      move_calmly i _ mem (Step-Later (Node.ticks now timeout))
        (run_once-Calm now timeout (g.sys.node i) h)
  Quiet-Logged i (follows now args) mem own = ground arith
  Quiet-Logged i {r'} (hears now peer args reply h) mem own =
      move_calmly i r' mem (Step-Later (Node.hears now peer args reply h))
        (on_append_reply-Calm now peer args reply (g.sys.node i) r' h)
  Quiet-Logged i {r'} (applies {es = es} h) mem own =
      move_calmly i r' mem (Step-Later (Node.applies h)) (applier-Calm (g.sys.node i) r' es h)
