-- ===== src/Swim/Wire.antt =====
-- swim.py, lines 62-85 and 296-305: the datagrams. The json library is an interface between bytes
-- and the values below; `decode` does not ask what it finds in most of the fields, so it yields
-- values, and `typed` says when these are a message of the model.
pub mod RoundTrip
use dssd.Prelude.{
  ℕ, String, Bool, true, false, Option, none, some, List, [], ◌∷◌, ◌==◌, str_eq, if◌then◌else◌,
}
use dssd.Swim.Member.{State, alive, suspect, dead, severity, Member}
use dssd.Swim.Gossip.{Node}
use dssd.Swim.Node.{MsgType, ping, ping_req, ack, join, join_ack, Message, Effect, handle}

-- What `json.loads` returns. A `number` is negative or a float, with the natural number that
-- Python finds equal to it.
mutual
  pub data Json : Type 0 where
    null : Json
    bool : Bool → Json
    num : ℕ → Json
    number : (equals : Option ℕ) → Json
    str : String → Json
    arr : Items → Json
    obj : Fields → Json

  pub data Items : Type 0 where
    nil : Items
    cons : Json → Items → Items

  pub data Fields : Type 0 where
    end : Fields
    field : String → Json → Fields → Fields

-- `json.dumps(…).encode()`, and `json.loads`, where `none` is its exception.
pub record JsonText : Type 0 where
  pub dumps : Json → List ℕ
  pub loads : List ℕ → Option Json

abbrev pub type_name : MsgType → String
type_name ping = "ping"
type_name ping_req = "ping-req"
type_name ack = "ack"
type_name join = "join"
type_name join_ack = "join-ack"

-- `asdict`
abbrev pub member_dict : Member → Json
member_dict m = obj (
    field "id" (str m.id) (
      field "addr" (str m.addr)
        (field "state" (num (severity m.state)) (field "incarnation" (num m.incarnation) end))))

abbrev pub member_dicts : List Member → Items
member_dicts [] = nil
member_dicts (m ∷ ms) = cons (member_dict m) (member_dicts ms)

abbrev pub message_dict : Message → Json
message_dict msg = obj (
    field "type" (str (type_name msg.type)) (
      field "seq" (num msg.seq) (
        field "sender" (member_dict msg.sender) (
          field "target_addr" (str msg.target_addr)
            (field "updates" (arr (member_dicts msg.updates)) end)))))

-- `Message.encode`
unfoldable pub encode : JsonText → Message → List ℕ
encode json msg = json.dumps (message_dict msg)

pub record RawMember : Type 0 where
  pub id : Json
  pub addr : Json
  pub state : State
  pub incarnation : Json

pub record RawMessage : Type 0 where
  pub type : MsgType
  pub seq : Json
  pub sender : RawMember
  pub target_addr : Json
  pub updates : List RawMember

abbrev pub field_of : String → Fields → Option Json
field_of k end = none
field_of k (field j v fs) = if str_eq j k then some v else field_of k fs

-- `d[k]`, which fails on all but dicts.
unfoldable pub get : String → Json → Option Json
get k (obj fs) = field_of k fs
get k null = none
get k (bool _) = none
get k (num _) = none
get k (number _) = none
get k (str _) = none
get k (arr _) = none

-- `State(n)` and `State(v)`: also of a bool or a float that equals the number.
abbrev pub state_of_num : ℕ → Option State
state_of_num n =
    if n == 0
    then some alive
    else if n == 1
    then some suspect
    else if n == 2
    then some dead
    else none

unfoldable pub state_of : Json → Option State
state_of (num n) = state_of_num n
state_of (number (some n)) = state_of_num n
state_of (number none) = none
state_of (bool true) = some suspect
state_of (bool false) = some alive
state_of null = none
state_of (str _) = none
state_of (arr _) = none
state_of (obj _) = none

-- `MsgType(v)`
abbrev pub type_of_name : String → Option MsgType
type_of_name s =
    if str_eq s "ping"
    then some ping
    else if str_eq s "ping-req"
    then some ping_req
    else if str_eq s "ack"
    then some ack
    else if str_eq s "join"
    then some join
    else if str_eq s "join-ack"
    then some join_ack
    else none

unfoldable pub type_of : Json → Option MsgType
type_of (str s) = type_of_name s
type_of null = none
type_of (bool _) = none
type_of (num _) = none
type_of (number _) = none
type_of (arr _) = none
type_of (obj _) = none

infixl 5 ◌>>=◌
abbrev ◌>>=◌ : {A B : Type 0} → Option A → (A → Option B) → Option B
none >>= f = none
some a >>= f = f a

-- The lambda `member`.
unfoldable pub decode_member : Json → Option RawMember
unfolding get state_of
decode_member d = do
  id ← get "id" d
  addr ← get "addr" d
  state ← get "state" d >>= state_of
  incarnation ← get "incarnation" d
  some (record { id = id; addr = addr; state = state; incarnation = incarnation })

unfoldable pub decode_items : Items → Option (List RawMember)
unfolding decode_member
decode_items nil = some []
decode_items (cons d ds) = do m ← decode_member d; ms ← decode_items ds; some (m ∷ ms)

-- The tuple over `obj["updates"]`: an empty dict or text is as good as an empty list, and the keys
-- of any other are texts, in which `member` fails.
unfoldable pub decode_updates : Json → Option (List RawMember)
unfolding decode_items
decode_updates (arr ds) = decode_items ds
decode_updates (obj end) = some []
decode_updates (obj (field _ _ _)) = none
decode_updates (str s) = if str_eq s "" then some [] else none
decode_updates null = none
decode_updates (bool _) = none
decode_updates (num _) = none
decode_updates (number _) = none

-- `Message.decode`, from the value on; `none` is any exception.
unfoldable pub decode_value : Json → Option RawMessage
unfolding get type_of decode_member decode_updates
decode_value v = do
  type ← get "type" v >>= type_of
  seq ← get "seq" v
  sender ← get "sender" v >>= decode_member
  target_addr ← get "target_addr" v
  updates ← get "updates" v >>= decode_updates
  some (record {
    type = type;
    seq = seq;
    sender = sender;
    target_addr = target_addr;
    updates = updates;
  })

unfoldable pub decode : JsonText → List ℕ → Option RawMessage
unfolding decode_value
decode json data_ = json.loads data_ >>= decode_value

abbrev pub text_of : Json → Option String
text_of (str s) = some s
text_of _ = none

abbrev pub nat_of : Json → Option ℕ
nat_of (num n) = some n
nat_of _ = none

unfoldable pub typed_member : RawMember → Option Member
typed_member m = do
  id ← text_of m.id
  addr ← text_of m.addr
  incarnation ← nat_of m.incarnation
  some (record { id = id; addr = addr; state = m.state; incarnation = incarnation })

unfoldable pub typed_members : List RawMember → Option (List Member)
unfolding typed_member
typed_members [] = some []
typed_members (m ∷ ms) = do t ← typed_member m; ts ← typed_members ms; some (t ∷ ts)

unfoldable pub typed : RawMessage → Option Message
unfolding typed_members typed_member
typed m = do
  seq ← nat_of m.seq
  sender ← typed_member m.sender
  target_addr ← text_of m.target_addr
  updates ← typed_members m.updates
  some (record {
    type = m.type;
    seq = seq;
    sender = sender;
    target_addr = target_addr;
    updates = updates;
  })

-- `datagram_received`: what cannot be decoded is dropped. `none` is a message with a field of
-- another type, which the code handles, in a way that is not modelled.
unfoldable pub datagram_received : JsonText → List ℕ → Node → Option (Node × List Effect)
unfolding decode typed
datagram_received json data_ n = elim (decode json data_) [
  | none ↦ some (n, [])
  | some raw ↦ elim (typed raw) [ none ↦ none | some msg ↦ some (handle msg n) ]
]
