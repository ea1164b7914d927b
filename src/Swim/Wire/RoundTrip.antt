-- ===== src/Swim/Wire/RoundTrip.antt =====
-- swim.py: what one node sends, another handles; and what `decode` does not ask.
use dssd.Prelude.{ℕ, ◌≡◌, refl, ◌∙◌, ap, some, List, [], ◌∷◌, map}
use dssd.Swim.Member.{State, alive, suspect, dead, severity, Member}
use dssd.Swim.Gossip.{Node}
use dssd.Swim.Node.{MsgType, ping, ping_req, ack, join, join_ack, Message, handle}
use dssd.Swim.Wire.{
  Json, num, str, obj, arr, field, end, JsonText, type_name, type_of_name, state_of_num,
  member_dict, member_dicts, message_dict, encode, RawMember, RawMessage, ◌>>=◌, decode_member,
  decode_items, decode_value, decode, typed_members, typed, datagram_received,
}

abbrev raw_member : Member → RawMember
raw_member m = record {
  id = str m.id;
  addr = str m.addr;
  state = m.state;
  incarnation = num m.incarnation;
}

abbrev raw : Message → RawMessage
raw msg = record {
  type = msg.type;
  seq = num msg.seq;
  sender = raw_member msg.sender;
  target_addr = str msg.target_addr;
  updates = map raw_member msg.updates;
}

state_of_num-severity : (s : State) → state_of_num (severity s) ≡ some s
state_of_num-severity alive = refl
state_of_num-severity suspect = refl
state_of_num-severity dead = refl

type_of_name-type_name : (t : MsgType) → type_of_name (type_name t) ≡ some t
type_of_name-type_name ping = refl
type_of_name-type_name ping_req = refl
type_of_name-type_name ack = refl
type_of_name-type_name join = refl
type_of_name-type_name join_ack = refl

decode_member-member_dict : (m : Member) → decode_member (member_dict m) ≡ some (raw_member m)
unfolding decode_member
decode_member-member_dict m = rw (state_of_num-severity m.state) refl

decode_items-member_dicts :
    (ms : List Member) → decode_items (member_dicts ms) ≡ some (map raw_member ms)
unfolding decode_items
decode_items-member_dicts [] = refl
decode_items-member_dicts (m ∷ ms) =
    rw (decode_member-member_dict m, decode_items, decode_items-member_dicts ms) refl

decode_value-message_dict : (msg : Message) → decode_value (message_dict msg) ≡ some (raw msg)
decode_value-message_dict msg =
    unfold decode_value in
    rw
      (
        type_of_name-type_name msg.type,
        decode_member-member_dict msg.sender,
        decode_items-member_dicts msg.updates,
      )
      refl

typed_members-map : (ms : List Member) → typed_members (map raw_member ms) ≡ some ms
unfolding typed_members
typed_members-map [] = refl
typed_members-map (m ∷ ms) = rw (typed_members-map ms) refl

typed-raw : (msg : Message) → typed (raw msg) ≡ some msg
unfolding typed
typed-raw msg = rw (typed_members-map msg.updates) refl

-- A message whose sender has this value in the place of its incarnation.
abbrev pub ill_typed : Message → Json → Json
ill_typed msg v = obj (
    field "type" (str (type_name msg.type)) (
      field "seq" (num msg.seq) (
        field "sender"
          (obj (
            field "id" (str msg.sender.id) (
              field "addr" (str msg.sender.addr)
                (field "state" (num (severity msg.sender.state)) (field "incarnation" v end)))))
          (field "target_addr" (str msg.target_addr)
            (field "updates" (arr (member_dicts msg.updates)) end)))))

decode_value-ill_typed :
    (msg : Message) (v : Json)
    → decode_value (ill_typed msg v)
      ≡ some (record (raw msg) { sender = record (raw_member msg.sender) { incarnation = v } })
decode_value-ill_typed msg v =
    unfold decode_value in
    rw
      (
        type_of_name-type_name msg.type,
        state_of_num-severity msg.sender.state,
        decode_items-member_dicts msg.updates,
      )
      refl

-- What the json library writes for this message, it reads again.
abbrev pub IsJson : JsonText → Message → Type 0
IsJson json msg = json.loads (json.dumps (message_dict msg)) ≡ some (message_dict msg)

decode-encode :
    (json : JsonText) (msg : Message)
    → IsJson json msg
    → decode json (encode json msg) ≡ some (raw msg)
unfolding decode encode
decode-encode json msg h = ap (λ o. o >>= decode_value) h ∙ decode_value-message_dict msg

-- If the json library reads what it has written of a message, then a node that receives the
-- datagram of this message handles just this message.
pub datagram_received-encode :
    (json : JsonText) (msg : Message) (n : Node)
    → IsJson json msg
    → datagram_received json (encode json msg) n ≡ some (handle msg n)
unfolding datagram_received
datagram_received-encode json msg n h =
    rw (decode-encode json msg h, datagram_received) (rw (typed-raw msg) refl)

-- A datagram that the json library reads as a message with any value whatever in the place of the
-- sender's incarnation is decoded without an error, and the value is the incarnation of what is
-- handed on.
pub decode-ill_typed :
    (json : JsonText) (bytes : List ℕ) (msg : Message) (v : Json)
    → json.loads bytes ≡ some (ill_typed msg v)
    → (m : RawMessage) × (decode json bytes ≡ some m) × (m.sender.incarnation ≡ v)
unfolding decode
decode-ill_typed json bytes msg v h = (
  record (raw msg) { sender = record (raw_member msg.sender) { incarnation = v } },
  ap (λ o. o >>= decode_value) h ∙ decode_value-ill_typed msg v,
  refl,
)
