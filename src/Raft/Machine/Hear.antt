-- ===== src/Raft/Machine/Hear.antt =====
-- A candidate hears a reply: those who have granted it their ballots are the majority behind it.
use native.Mathlib.Decide.{dec_lt}
use dssd.Prelude.{
  ℕ, ◌+◌, ◌/◌, ◌≤◌, ◌<◌, ◌≡◌, refl, sym, ap, subst, ◌∙◌, inl, inr, String, true, some, List, [],
  ◌∷◌, ◌++◌, length, count, contains, eq_refl, arith,
}
use dssd.Raft.State.{Raft, LogEntry, is_candidate}
use dssd.Raft.Vote.{RequestVoteReply}
use dssd.Raft.Node.Terms.{ask-Later}
use dssd.Raft.Cluster.{System, put, hear}
use dssd.Raft.Cluster.Invariant.{Inv, put-cases}
use dssd.Raft.Group.Effects.{made, ask-cases}
use dssd.Raft.Group.History.{History}
use dssd.Raft.Group.Lead.{with_log, with_log-hit}
use dssd.Raft.Group.Election.{not_born, put-same}
use dssd.Raft.Machine.{Machine}
use dssd.Raft.Machine.Order.{Has, Has-append}
use dssd.Raft.Machine.Kept.{Growth, Growth-make, Lost, Lost-Growth, Acks, Quorum}
use dssd.Raft.Machine.Changes.{acked, acked-miss}
use dssd.Raft.Machine.Sound.{group_of, Next, Sound}
use dssd.Raft.Machine.Moves.{Moved-refl, Calm-Sound, make-Moved, make-Sound}

-- For some history and some acknowledgements.
abbrev pub HasSound : List String → Machine → Type 0
HasSound members m = (G : History) × (B : Acks) × Sound members m G B

module _ {members : List String} (m : Machine) (G : History) (B : Acks)
    (v : Sound members m G B) where
  module _ (c : String) (s' : System) (r' : Raft)
      (node : (j : String) → s'.node j ≡ put m.sys.node c r' j)
      (stood : is_candidate (m.sys.node c).role ≡ true)
      (term : (m.sys.node c).current_term ≤ r'.current_term)
      (none_yet : G (m.sys.node c).current_term ≡ [])
      (enough : length members / 2 + 1
        ≤ count (m.sys.granted c (m.sys.node c).current_term) members)
      (e : LogEntry) (of_term : e.term ≡ (m.sys.node c).current_term) where
    born :
        let t = (m.sys.node c).current_term in
        Quorum members s'
          (with_log G t ((m.sys.node c).log ++ e ∷ []))
          (acked B c t (length (m.sys.node c).log + 1))
          t
    born = record {
      voters = m.sys.granted c t;
      enough = enough;
      since = λ w yes'.
          subst (λ (r : Raft). t ≤ r.current_term) (sym (node w))
            (put-cases (λ r. t ≤ r.current_term) m.sys.node c w r' (λ _. term)
              (v.inv.cast c t w yes').past);
      backs = λ w yes' u n lt ack h.
          let ack' : n < B w u =
            omega (arith, acked-miss B c t (length (m.sys.node c).log + 1) w u (ground arith)) in
          let h' : Has (G u) n u = (grown.at u).back n u (omega (arith, v.keeps.inside w u)) h in
          elim ((v.keeps.voted c t w yes').backs stood refl u n lt ack' h') [
            | inl has ↦ inl (
                rw (with_log-hit G t ((m.sys.node c).log ++ e ∷ []))
                  (Has-append (m.sys.node c).log (e ∷ []) n u has))
            | inr l ↦ inr (earlier u n l)
          ];
    }
      where
        t : ℕ
        t = (m.sys.node c).current_term

        G' : History
        G' = with_log G t ((m.sys.node c).log ++ e ∷ [])

        grown : Growth G G'
        grown = Growth-make G t (m.sys.node c).log e of_term (inr none_yet)

        -- Nobody has led the candidate's term before.
        earlier : (u n : ℕ) → Lost G u n (t + 1) → Lost G' u n t
        earlier u n l = elim (dec_lt l.w t) [
          | yes before ↦ Lost-Growth G G' u n t t grown (omega arith) (record {
            w = l.w;
            after = l.after;
            before = before;
            begun = l.begun;
            lacks = l.lacks;
          })
          | no same ↦
              let now : l.w ≡ t = omega (arith, l.before) in
              absurd (omega (arith, l.begun, ap (λ x. length (G x)) now, ap length none_yet))
        ]

  pub hear-Sound :
      (c : String) (t : ℕ) (p : String) (now : ℕ) (reply : RequestVoteReply)
      → contains members c ≡ true
      → Inv members (hear c t p now reply m.sys)
      → Next members G B (record m { sys = hear c t p now reply m.sys })
  unfolding hear
  hear-Sound c t p now reply mem after =
      elim (ask-cases now reply (m.sys.node c) (record { term = t; votes = m.sys.votes c t })) [
        | inl (calm, _) ↦ (
          G,
          B,
          Moved-refl G B,
          Calm-Sound c _ mem v _ _ _ after (ask-Later now (some reply) (m.sys.node c) _) calm
              (λ c t w h. h) (λ c u w g. inl g),
        )
        | inr (becomes, _, _) ↦
            let enough =
              subst (λ u. length members / 2 + 1 ≤ count (m.sys.granted c u) members)
                (ap (λ (r : Raft). r.current_term) (put-same m.sys.node c _) ∙ becomes.term)
                (after.leads c mem (rw (eq_refl c) becomes.leads)) in
            let none_yet = not_born (group_of m) G v.inv v.logged c mem becomes.stood enough in
            (
              _,
              _,
              make-Moved c (m.sys.node c) mem v (made (m.sys.node c) []) refl (inr none_yet),
              make-Sound c _ mem v (made (m.sys.node c) []) _ _ after
                  (record {
                    log = becomes.log;
                    of_term = refl;
                    term = becomes.term;
                    leads = becomes.leads;
                  })
                  refl enough (inr none_yet)
                  (λ _.
                    born c _ _ (λ j. refl) becomes.stood (omega (arith, becomes.term)) none_yet
                      enough (made (m.sys.node c) []) refl),
            )
      ]
