-- ===== src/Raft/Replicate/Leading.antt =====
-- The tables of a leader: `_next_index` and `_match_index` name places of its log for every peer.
-- They make the leader's tasks free of KeyError, IndexError and negative numbers.
use dssd.Prelude.{
  ℕ, suc, ◌+◌, ◌-◌, ◌≤◌, ◌<◌, ◌≡◌, refl, ap, ◌⊎◌, inl, inr, String, true, Option, none, some, List,
  [], ◌∷◌, ◌++◌, length, length-append, lookup, insert, lookup-insert, lookup-fill, contains,
  Bool-cases, str_eq, ltb, not, ◌||◌, ◌==◌, fill, get_elem?-of_lt, arith,
}
use dssd.Raft.State.{
  Raft, LogEntry, is_leader, is_candidate, propose, become_leader, become_follower,
}
use dssd.Raft.Append.{AppendEntriesArgs, AppendEntriesReply}
use dssd.Raft.Replicate.{
  quiet, request, replicate_to, send_from, append_args, acknowledge, back_up, on_append_reply,
}
use dssd.Raft.Replicate.Advance.{Covers, Advanced, advance_commit_index-Advanced}

pub record IsLeading (r : Raft) : Type 0 where
  pub next :
      (p : String)
      → contains r.cfg.peers p ≡ true
      → (n : ℕ) × (lookup p r.next_index ≡ some (suc n)) × (n < length r.log)
  pub matched :
      (p : String)
      → contains r.cfg.peers p ≡ true
      → (m : ℕ) × (lookup p r.match_index ≡ some m) × (m < length r.log)

-- A step that keeps the tables and does not shorten the log keeps them in order.
IsLeading-keep :
    (r s : Raft)
    → s.cfg ≡ r.cfg
    → s.next_index ≡ r.next_index
    → s.match_index ≡ r.match_index
    → length r.log ≤ length s.log
    → IsLeading r
    → IsLeading s
IsLeading-keep r s cfg next matched longer v = record {
  next = λ p h. let (n, e, lt) = v.next p (rw (← cfg) h) in (n, rw next e, omega arith);
  matched = λ p h. let (m, e, lt) = v.matched p (rw (← cfg) h) in (m, rw matched e, omega arith);
}

-- A candidate with a nonempty log that becomes the leader has tables that give every peer a place
-- of its log.
pub become_leader-IsLeading :
    (r : Raft) → is_candidate r.role ≡ true → 0 < length r.log → IsLeading (become_leader r)
unfolding become_leader
become_leader-IsLeading r c h = rw c (record {
  next = λ p mem. (length r.log - 1, next p mem, omega (arith, longer));
  matched = λ p mem. (0, rw (lookup-fill, mem), omega (arith, longer));
})
  where
    noop : LogEntry
    noop = record { term = r.current_term; index = length r.log; command = [] }

    longer : length (r.log ++ noop ∷ []) ≡ length r.log + 1
    longer = length-append r.log (noop ∷ [])

    next :
        (p : String)
        → contains r.cfg.peers p ≡ true
        → lookup p (fill r.cfg.peers (length r.log) []) ≡ some (suc (length r.log - 1))
    next p mem = rw (lookup-fill, mem) (ap some (omega arith))

pub propose-IsLeading :
    (r : Raft) (command : List ℕ) → IsLeading r → IsLeading (propose r command).0
unfolding propose
propose-IsLeading r command v = elim (Bool-cases (is_leader r.role)) [
  | inl lead ↦
      rw lead
        (IsLeading-keep r _ refl refl refl (omega (arith, length-append r.log (entry ∷ []))) v)
  | inr other ↦ rw other v
]
  where
    entry : LogEntry
    entry = record { term = r.current_term; index = length r.log; command = command }

-- In a node whose tables give every peer a place of its log, a replication task for a peer sends
-- a request or does nothing, and never fails.
pub replicate_to-works :
    (peer : String) (term : ℕ) (r : Raft)
    → contains r.cfg.peers peer ≡ true
    → IsLeading r
    → (replicate_to peer term r ≡ quiet)
      ⊎ ((args : AppendEntriesArgs) × (replicate_to peer term r ≡ request args))
unfolding replicate_to
replicate_to-works peer term r mem v =
    let (n, e, lt) = v.next peer mem in
    let (x, at) = get_elem?-of_lt r.log n lt in
    elim (Bool-cases (not (is_leader r.role) || not (r.current_term == term))) [
      | inl other ↦ inl (rw other)
      | inr leads ↦ inr (append_args r (suc n) x.term, rw (leads, e, send_from, at))
    ]

pub IsLeading-Covers : (r : Raft) → IsLeading r → Covers r.match_index r.cfg.peers
unfolding Covers
IsLeading-Covers r v p mem = let (m, e, _) = v.matched p mem in (m, e)

Advanced-IsLeading : (r r' : Raft) → IsLeading r → Advanced r r' → IsLeading r'
unfolding Advanced
Advanced-IsLeading r r' v (inl (e, _)) = rw e v
Advanced-IsLeading r r' v (inr (n, e, _, _, _)) =
    rw e (IsLeading-keep r _ refl refl refl (omega arith) v)

acknowledge-IsLeading :
    (peer : String) (matched : ℕ) (r : Raft)
    → matched < length r.log
    → IsLeading r
    → (r' : Raft) × (acknowledge peer matched r ≡ some r') × IsLeading r'
unfolding acknowledge
acknowledge-IsLeading peer matched r inside v =
    let (r', e, advanced) = advance_commit_index-Advanced r₁ (IsLeading-Covers r₁ tables) in
    (r', e, Advanced-IsLeading r₁ r' tables advanced)
  where
    r₁ : Raft
    r₁ = record r {
      match_index = insert peer matched r.match_index;
      next_index = insert peer (matched + 1) r.next_index;
    }

    next :
        (p : String)
        → contains r.cfg.peers p ≡ true
        → (n : ℕ) × (lookup p r₁.next_index ≡ some (suc n)) × (n < length r.log)
    next p mem = elim (Bool-cases (str_eq peer p)) [
      | inl hit ↦ (matched, rw (lookup-insert, hit) (ap some (omega arith)), inside)
      | inr miss ↦ let (n, e, lt) = v.next p mem in (n, rw (lookup-insert, miss) e, lt)
    ]

    reached :
        (p : String)
        → contains r.cfg.peers p ≡ true
        → (m : ℕ) × (lookup p r₁.match_index ≡ some m) × (m < length r.log)
    reached p mem = elim (Bool-cases (str_eq peer p)) [
      | inl hit ↦ (matched, rw (lookup-insert, hit), inside)
      | inr miss ↦ let (m, e, lt) = v.matched p mem in (m, rw (lookup-insert, miss) e, lt)
    ]

    tables : IsLeading r₁
    tables = record { next = next; matched = reached }

pub back_up-IsLeading :
    (peer : String) (r : Raft)
    → contains r.cfg.peers peer ≡ true
    → IsLeading r
    → (r' : Raft) × (back_up peer r ≡ some r') × IsLeading r'
unfolding back_up
back_up-IsLeading peer r mem v =
    let (n, e, lt) = v.next peer mem in
    elim (Bool-cases (ltb 1 (suc n))) [
      | inl room ↦
          rw (e, back_up, room)
            (
              _,
              refl,
              record {
                next = λ p h. elim (Bool-cases (str_eq peer p)) [
                  | inl hit ↦ (n - 1, rw (lookup-insert, hit) (ap some (ground arith)), omega arith)
                  | inr miss ↦
                      let (k, f, less) = v.next p h in (k, rw (lookup-insert, miss) f, less)
                ];
                matched = v.matched;
              },
            )
      | inr stuck ↦ rw (e, back_up, stuck) (r, refl, v)
    ]

-- In a node whose two tables give every peer a place of its log, every reply of a peer to a
-- request for a place inside the log, or its absence, is handled without a KeyError, and leaves
-- the tables in that order.
pub on_append_reply-IsLeading :
    (now : ℕ) (peer : String) (args : AppendEntriesArgs) (reply : Option AppendEntriesReply)
    (r : Raft)
    → contains r.cfg.peers peer ≡ true
    → args.prev_log_index + length args.entries < length r.log
    → IsLeading r
    → (r' : Raft) × (on_append_reply now peer args reply r ≡ some r') × IsLeading r'
unfolding on_append_reply
on_append_reply-IsLeading now peer args none r mem inside v = (r, refl, v)
on_append_reply-IsLeading now peer args (some reply) r mem inside v =
    elim (Bool-cases (ltb r.current_term reply.term)) [
      | inl newer ↦
          rw newer
            (_, refl, unfold become_follower in IsLeading-keep r _ refl refl refl (omega arith) v)
      | inr same ↦
          rw same (elim (Bool-cases (not (is_leader r.role) || not (r.current_term == args.term))) [
            | inl other ↦ rw other (r, refl, v)
            | inr leads ↦ rw leads (elim (Bool-cases reply.success) [
              | inl ok ↦ rw ok (acknowledge-IsLeading peer _ r inside v)
              | inr bad ↦ rw bad (back_up-IsLeading peer r mem v)
            ])
          ])
    ]
