-- ===== src/Raft/Replicate/Request.antt =====
-- What an AppendEntries request says of the leader that sent it.
use dssd.Prelude.{
  ℕ, zero, suc, ◌-◌, ◌<◌, ◌≡◌, refl, subst, String, true, none, some, Option, Option-cases, drop,
  length, get_elem?, lookup, inl, inr, lt-of_get_elem?, arith,
}
use dssd.Raft.State.{Raft, LogEntry, is_leader}
use dssd.Raft.Append.{AppendEntriesArgs}
use dssd.Raft.Log.{has_term, has_term-get_elem?}
use dssd.Raft.Replicate.{request, replicate_to, send_from, append_args}

-- The request carries everything that the leader's log has behind a place inside it.
pub record Sent (l : Raft) (args : AppendEntriesArgs) : Type 0 where
  pub term : args.term ≡ l.current_term
  pub sender : args.leader_id ≡ l.cfg.id
  pub leads : is_leader l.role ≡ true
  pub inside : args.prev_log_index < length l.log
  pub prev : has_term l.log args.prev_log_index args.prev_log_term ≡ true
  pub rest : drop (suc args.prev_log_index) l.log ≡ args.entries
  pub commit : args.leader_commit ≡ l.commit_index

append_args-Sent :
    (l : Raft) (prev : ℕ) (x : LogEntry)
    → is_leader l.role ≡ true
    → get_elem? l.log prev ≡ some x
    → Sent l (append_args l (suc prev) x.term)
unfolding append_args
append_args-Sent l prev x lead e = record {
  term = refl;
  sender = refl;
  leads = lead;
  inside = rw same (lt-of_get_elem? l.log prev e);
  prev = rw same (has_term-get_elem? l.log prev x e);
  rest = rw same;
  commit = refl;
}
  where
    same : suc prev - 1 ≡ prev
    same = omega arith

request-injective : (a b : AppendEntriesArgs) → request a ≡ request b → a ≡ b
request-injective a b h = cc

send_from-Sent :
    (l : Raft) (n : Option ℕ) (args : AppendEntriesArgs)
    → is_leader l.role ≡ true
    → send_from l n ≡ request args
    → Sent l args
unfolding send_from
send_from-Sent l none args lead h = ground arith
send_from-Sent l (some zero) args lead h = ground arith
send_from-Sent l (some (suc prev)) args lead h = elim (Option-cases (get_elem? l.log prev)) [
  | inl e ↦ ground arith
  | inr (x, e) ↦
      subst (Sent l) (request-injective _ args (rw (e, send_from) at h))
        (append_args-Sent l prev x lead e)
]

pub replicate_to-Sent :
    (peer : String) (term : ℕ) (l : Raft) (args : AppendEntriesArgs)
    → replicate_to peer term l ≡ request args
    → Sent l args
unfolding replicate_to
replicate_to-Sent peer term l args h =
    ground (arith, send_from-Sent l (lookup peer l.next_index) args)
