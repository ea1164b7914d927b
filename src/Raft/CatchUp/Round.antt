-- ===== src/Raft/CatchUp/Round.antt =====
-- raft.py: one request and its reply, step by step.
use dssd.Prelude.{
  ℕ, zero, suc, ◌+◌, ◌-◌, ◌≤◌, ◌<◌, ◌≡◌, refl, ap, sym, subst, ◌∙◌, inl, inr, Dict, List,
  Bool-cases, str_eq, String, true, false, some, length, lookup, insert, lookup-insert, contains,
  get_elem?, eq_refl, some_inj, arith,
}
use dssd.Raft.State.{Raft, LogEntry, is_leader}
use dssd.Raft.Log.{has_term, Matching}
use dssd.Raft.Append.{AppendEntriesArgs, AppendEntriesReply, handle_append_entries}
use dssd.Raft.Agreement.{Agrees}
use dssd.Raft.Replicate.{
  request, replicate_to, send_from, append_args, advance_loop, advance_commit_index, acknowledge,
  back_up, on_append_reply,
}
use dssd.Raft.Replicate.Advance.{Covers, Advanced, advance_commit_index-Advanced}
use dssd.Raft.Replicate.Leading.{IsLeading, IsLeading-Covers}
use dssd.Raft.CatchUp.{exchange, rounds}

-- A leader and one of its peers: the leader's tables are in order, both logs begin with the
-- sentinel and match, and the peer knows of no newer term.
pub record IsPair (peer : String) (l f : Raft) : Type 0 where
  pub leads : is_leader l.role ≡ true
  pub tables : IsLeading l
  pub member : contains l.cfg.peers peer ≡ true
  pub inside : l.commit_index < length l.log
  pub first : has_term l.log 0 0 ≡ true
  pub first_peer : has_term f.log 0 0 ≡ true
  pub newer : f.current_term ≤ l.current_term
  pub matching : Matching f.log l.log

-- After so many rounds the leader knows that the peer has its whole log, and the peer has it.
pub record CaughtUp (peer : String) (now : ℕ) (l f : Raft) (k : ℕ) : Type 0 where
  pub leader : Raft
  pub follower : Raft
  pub runs : rounds k now peer (l, f) ≡ some (leader, follower)
  pub agrees : Agrees l f follower
  pub matched : lookup peer leader.match_index ≡ some (length l.log - 1)
  pub next : Dict ℕ
  pub advanced :
      Advanced
        (record l { match_index = insert peer (length l.log - 1) l.match_index; next_index = next })
        leader

pub sends :
    (peer : String) (l : Raft) (n : ℕ) (x : LogEntry)
    → is_leader l.role ≡ true
    → lookup peer l.next_index ≡ some (suc n)
    → get_elem? l.log n ≡ some x
    → replicate_to peer l.current_term l ≡ request (append_args l (suc n) x.term)
unfolding replicate_to send_from
sends peer l n x leads next at = ground arith

match_index-advance_loop :
    (r r' : Raft) (n : ℕ) → advance_loop r n ≡ some r' → r'.match_index ≡ r.match_index
unfolding advance_loop
match_index-advance_loop r r' zero h = sym (ap (λ (q : Raft). q.match_index) (some_inj h))
match_index-advance_loop r r' (suc n) h = ground (arith, match_index-advance_loop r r' n)

pub match_index-acknowledge :
    (peer : String) (m : ℕ) (r r' : Raft)
    → acknowledge peer m r ≡ some r'
    → lookup peer r'.match_index ≡ some m
unfolding acknowledge advance_commit_index
match_index-acknowledge peer m r r' h = rw (
  match_index-advance_loop
      (record r {
        match_index = insert peer m r.match_index;
        next_index = insert peer (m + 1) r.next_index;
      })
      r' _ h,
  lookup-insert,
  eq_refl,
)

Covers-insert :
    (peer : String) (m : ℕ) (d : Dict ℕ) (ps : List String)
    → Covers d ps
    → Covers (insert peer m d) ps
unfolding Covers
Covers-insert peer m d ps cover p listed = elim (Bool-cases (str_eq peer p)) [
  | inl hit ↦ (m, rw (lookup-insert, hit) refl)
  | inr miss ↦ let (k, e) = cover p listed in (k, rw (lookup-insert, miss) e)
]

pub acknowledge-Advanced :
    (peer : String) (m : ℕ) (r r' : Raft)
    → IsLeading r
    → acknowledge peer m r ≡ some r'
    → Advanced
        (record r {
          match_index = insert peer m r.match_index;
          next_index = insert peer (m + 1) r.next_index;
        })
        r'
unfolding acknowledge
acknowledge-Advanced peer m r r' v h =
    let (q, e, advanced) =
      advance_commit_index-Advanced
        (record r {
          match_index = insert peer m r.match_index;
          next_index = insert peer (m + 1) r.next_index;
        })
        (Covers-insert peer m r.match_index r.cfg.peers (IsLeading-Covers r v)) in
    subst (Advanced _) (some_inj (sym e ∙ h)) advanced

-- What the leader makes of the two answers.
pub on_append_reply-success :
    (now : ℕ) (peer : String) (args : AppendEntriesArgs) (l : Raft)
    → is_leader l.role ≡ true
    → args.term ≡ l.current_term
    → on_append_reply now peer args (some (record { term = args.term; success = true })) l
      ≡ acknowledge peer (args.prev_log_index + length args.entries) l
unfolding on_append_reply
on_append_reply-success now peer args l leads same = ground arith

pub on_append_reply-refusal :
    (now : ℕ) (peer : String) (args : AppendEntriesArgs) (l : Raft)
    → is_leader l.role ≡ true
    → args.term ≡ l.current_term
    → on_append_reply now peer args (some (record { term = args.term; success = false })) l
      ≡ back_up peer l
unfolding on_append_reply
on_append_reply-refusal now peer args l leads same = ground arith

-- One round that goes through.
pub exchange-request :
    (peer : String) (now : ℕ) (l f l' f' : Raft) (args : AppendEntriesArgs)
    (reply : AppendEntriesReply)
    → replicate_to peer l.current_term l ≡ request args
    → handle_append_entries now args f ≡ (f', reply)
    → on_append_reply now peer args (some reply) l ≡ some l'
    → exchange now peer (l, f) ≡ some (l', f')
unfolding exchange
exchange-request peer now l f l' f' args reply sent handled replied =
    rw (exchange, sent, ap (λ s. s.1) handled, replied) (ap (λ s. some (l', s.0)) handled)

pub rounds-suc :
    (k now : ℕ) (peer : String) (s s' : Raft × Raft)
    → exchange now peer s ≡ some s'
    → rounds (suc k) now peer s ≡ rounds k now peer s'
unfolding rounds
rounds-suc k now peer s s' h = rw (rounds, h) refl

pub rounds-one :
    (now : ℕ) (peer : String) (s s' : Raft × Raft)
    → exchange now peer s ≡ some s'
    → rounds 1 now peer s ≡ some s'
unfolding rounds
rounds-one now peer s s' h = rounds-suc zero now peer s s' h
