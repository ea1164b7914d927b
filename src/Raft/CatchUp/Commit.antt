-- ===== src/Raft/CatchUp/Commit.antt =====
-- raft.py: with the last peer that a majority lacks caught up, the leader commits its whole log.
use native.Mathlib.Decide.{dec_lt}
use dssd.Prelude.{
  ℕ, ◌+◌, ◌-◌, ◌≤◌, ◌<◌, ◌≡◌, ap, inl, inr, String, Bool, true, ◌||◌, some, length, lookup, insert,
  lookup-insert, Dict, count, count_mono, str_eq, arith,
}
use dssd.Raft.State.{Raft, majority}
use dssd.Raft.Log.{has_term, lt-of_has_term}
use dssd.Raft.Replicate.Advance.{Advanced, Committable, has_entry}
use dssd.Raft.CatchUp.{rounds}
use dssd.Raft.CatchUp.Round.{IsPair}
use dssd.Raft.CatchUp.Finish.{rounds-CaughtUp}

-- The peers that have this entry, once this one has it.
abbrev pub has_or_is : Dict ℕ → (n : ℕ) (peer p : String) → Bool
has_or_is d n peer p = str_eq peer p || has_entry d n p

has_entry-insert :
    (d : Dict ℕ) (n : ℕ) (peer p : String)
    → has_or_is d n peer p ≡ true
    → has_entry (insert peer n d) n p ≡ true
has_entry-insert d n peer p h = ground (arith, lookup-insert peer p n d, h)

-- The newest entry, if it may be committed, is.
Advanced-last :
    (r r' : Raft)
    → Advanced r r'
    → r.commit_index < length r.log
    → Committable r (length r.log - 1)
    → r'.commit_index ≡ length r.log - 1
unfolding Advanced
Advanced-last r r' (inl (e, none_above)) inside c =
    elim (dec_lt r.commit_index (length r.log - 1)) [
      | yes below ↦ absurd (none_above _ below c)
      | no reached ↦ omega (arith, ap (λ (q : Raft). q.commit_index) e)
    ]
Advanced-last r r' (inr (n, e, above, at, newest)) inside c = elim (dec_lt n (length r.log - 1)) [
  | yes below ↦ absurd (newest _ below c)
  | no reached ↦
      omega (
        arith,
        ap (λ (q : Raft). q.commit_index) e,
        lt-of_has_term r.log n r.current_term at.current,
      )
]

-- The leader and the peer, after rounds in which everything was committed.
pub record CommitsAll (peer : String) (now : ℕ) (l f : Raft) : Type 0 where
  pub k : ℕ
  pub leader : Raft
  pub follower : Raft
  pub runs : rounds k now peer (l, f) ≡ some (leader, follower)
  pub bounded : (n : ℕ) × (lookup peer l.next_index ≡ some n) × (k ≤ n)
  pub commits : leader.commit_index ≡ length l.log - 1

-- Let a leader's tables give every peer a place of its log and its commit index lie inside the
-- log, let a peer know of no newer term, and let both logs begin with the sentinel and match. If
-- the leader's last entry is of its own term, and with this peer a majority would have it, then,
-- if requests and replies get through, the leader has committed its whole log after at most as
-- many rounds as its next index for the peer says.
pub rounds-CommitsAll :
    (peer : String) (now : ℕ) (l f : Raft)
    → IsPair peer l f
    → has_term l.log (length l.log - 1) l.current_term ≡ true
    → majority l ≤ 1 + count (has_or_is l.match_index (length l.log - 1) peer) l.cfg.peers
    → CommitsAll peer now l f
rounds-CommitsAll peer now l f v own enough =
    let (n, next, (k, few, c)) = rounds-CaughtUp peer now l f v in
    record {
      k = k;
      leader = c.leader;
      follower = c.follower;
      runs = c.runs;
      bounded = (n, next, few);
      commits = Advanced-last _ c.leader c.advanced v.inside (record {
        current = own;
        replicated = omega (
          arith,
          count_mono (has_or_is l.match_index (length l.log - 1) peer)
              (has_entry (insert peer (length l.log - 1) l.match_index) (length l.log - 1))
              l.cfg.peers (λ p h. has_entry-insert l.match_index (length l.log - 1) peer p h),
        );
      });
    }
