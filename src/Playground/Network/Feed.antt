-- ===== src/Playground/Network/Feed.antt =====
-- playground.py: the packets that the page draws, and what a remote call does.
use dssd.Prelude.{
  get_elem?-snoc, ℕ, zero, suc, ◌+◌, ◌-◌, ◌≤◌, ◌≡◌, refl, ◌∙◌, ap, sym, inl, inr, String, Bool, not,
  ◌&&◌, ◌||◌, Option, none, some, List, [], ◌∷◌, ◌++◌, Dict, lookup, insert, lookup-insert,
  get_elem?, drop, length, length-append, length-drop, if◌then◌else◌, arith, Bool-cases, str_eq,
}
use dssd.Raft.State.{Raft}
use dssd.Playground.Network.{MemoryNetwork, Packet, Plane, is_raft, raft, delivers, tap, rpc_serve}

-- At most 300 packets, numbered one after the other up to the last number given.
pub record IsFeed (net : MemoryNetwork) : Type 0 where
  pub short : length net.packets ≤ 300
  pub numbered :
      (j : ℕ) (p : Packet)
      → get_elem? net.packets j ≡ some p
      → p.i + length net.packets ≡ suc (net.seq + j)

suc_add : (n j : ℕ) → suc (n + j) ≡ suc n + j
suc_add n j = omega arith

get_elem?-drop_add :
    {A : Type 0} (n j : ℕ) (xs : List A) → get_elem? (drop n xs) j ≡ get_elem? xs (n + j)
get_elem?-drop_add zero j xs = ap (get_elem? xs) (omega arith)
get_elem?-drop_add (suc n) j [] = refl
get_elem?-drop_add (suc n) j (x ∷ xs) =
    get_elem?-drop_add n j xs ∙ ap (get_elem? (x ∷ xs)) (suc_add n j)

seen-IsFeed :
    (net : MemoryNetwork) (packet : Packet)
    → packet.i ≡ net.seq + 1
    → IsFeed net
    → IsFeed (record net {
      seq = net.seq + 1;
      packets = drop (length (net.packets ++ packet ∷ []) - 300) (net.packets ++ packet ∷ []);
    })
seen-IsFeed net packet e v = record {
  short =
      omega (
        arith,
        length-drop (length (net.packets ++ packet ∷ []) - 300) (net.packets ++ packet ∷ []),
      );
  numbered = λ j p h.
      let n = length (net.packets ++ packet ∷ []) - 300 in
      let l = length-drop n (net.packets ++ packet ∷ []) in
      let m = length-append net.packets (packet ∷ []) in
      let s = v.short in
      elim (get_elem?-snoc net.packets packet p (n + j)
        (sym (get_elem?-drop_add n j (net.packets ++ packet ∷ [])) ∙ h)) [
          | inl before ↦ omega (arith, v.numbered (n + j) p before)
          | inr (at, last) ↦ omega (arith, ap (λ (q : Packet). q.i) last)
        ];
}

-- If the feed holds at most 300 packets, numbered one after the other up to the last number
-- given, it does so after another packet.
pub tap-IsFeed :
    (plane : Plane) (kind src dst : String) (ok : Bool) (group : String) (net : MemoryNetwork)
    → IsFeed net
    → IsFeed (tap plane kind src dst ok group net)
unfolding tap
tap-IsFeed plane kind src dst ok group net v =
    elim (Bool-cases (
      is_raft plane
      && (not net.tap_raft_heartbeats && (str_eq kind "heartbeat" || str_eq kind "reply")))) [
        | inl hidden ↦ rw hidden v
        | inr shown ↦ rw shown (seen-IsFeed net _ refl v)
      ]

-- What the rest of a remote call has done.
pub record Serves {ℓ} {Reply : Type ℓ} (handler : Raft → Raft × Reply) (draw : ℕ)
    (me peer group : String) (net : MemoryNetwork) (nodes : Dict Raft) (node : Raft) : Type ℓ where
  pub after : MemoryNetwork
  pub reply : Option Reply
  pub returns : rpc_serve handler draw me peer group net ≡ some (after, reply)
  pub answered : reply ≡ (if delivers draw peer me net then some (handler node).1 else none)
  pub served :
      (p : String)
      → lookup p after.groups ≡ (
          if str_eq peer p then some (insert group (handler node).0 nodes) else lookup p net.groups)

groups-tap :
    (plane : Plane) (kind src dst : String) (ok : Bool) (group : String) (net : MemoryNetwork)
    → (tap plane kind src dst ok group net).groups ≡ net.groups
unfolding tap
groups-tap plane kind src dst ok group net = ground arith

-- From the end of its first delay on, a remote call to a node that is there runs the handler on
-- this node, and on it alone, even if the node is down by then, and whether or not the reply gets
-- through; the caller has the handler's reply if it does, and an error otherwise.
pub rpc_serve-Serves {ℓ} :
    {Reply : Type ℓ} (handler : Raft → Raft × Reply) (draw : ℕ) (me peer group : String)
    (net : MemoryNetwork) (nodes : Dict Raft) (node : Raft)
    → lookup peer net.groups ≡ some nodes
    → lookup group nodes ≡ some node
    → Serves handler draw me peer group net nodes node
unfolding rpc_serve
rpc_serve-Serves handler draw me peer group net nodes node found here =
    let served = record net {
      groups = insert peer (insert group (handler node).0 nodes) net.groups;
    } in
    record {
      after = tap raft "reply" peer me (delivers draw peer me served) group served;
      reply = if delivers draw peer me served then some (handler node).1 else none;
      returns = rw (rpc_serve, found, here) refl;
      answered = unfold delivers in refl;
      served = λ p.
          ap (lookup p)
            (groups-tap raft "reply" peer me (delivers draw peer me served) group served)
          ∙ lookup-insert peer p (insert group (handler node).0 nodes) net.groups;
    }
