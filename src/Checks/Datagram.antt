-- ===== src/Checks/Datagram.antt =====
-- swim.py: a ping with gossip on the wire, and probes that are answered and not.
use dssd.Prelude.{◌≡◌, refl, true, false, some, none, [], ◌∷◌}
use dssd.Swim.Member.{alive, suspect, Member}
use dssd.Swim.Gossip.{Node, fresh}
use dssd.Swim.Node.{ping, Message, handle}
use dssd.Swim.Wire.{str, JsonText, message_dict, encode, RawMessage, decode, datagram_received}
use dssd.Swim.Wire.RoundTrip.{datagram_received-encode, ill_typed, decode-ill_typed}
use dssd.Swim.Agent.{new_agent, default_config, probe_once, end_requests}
use dssd.Swim.Node.Reach

abbrev bob : Member
bob = record { id = "b"; addr = "b:1"; state = alive; incarnation = 3 }

abbrev node : Node
node = record (fresh "a" "a:1") { members = ("b", bob) ∷ []; waiters = (1, true) ∷ (2, false) ∷ [] }

abbrev message : Message
message = record {
  type = ping;
  seq = 7;
  sender = bob;
  target_addr = "";
  updates = record bob { id = "c"; state = suspect } ∷ [];
}

-- A library that knows one text.
abbrev one_text : JsonText
one_text = record { dumps = λ v. 1 ∷ []; loads = λ c. some (message_dict message) }

datagram_received-encode_example :
    datagram_received one_text (encode one_text message) node ≡ some (handle message node)
datagram_received-encode_example = datagram_received-encode one_text message node refl

abbrev odd_text : JsonText
odd_text = record { dumps = λ v. 1 ∷ []; loads = λ c. some (ill_typed message (str "x")) }

decode-ill_typed_example :
    (m : RawMessage) × (decode odd_text (1 ∷ []) ≡ some m) × (m.sender.incarnation ≡ str "x")
decode-ill_typed_example = decode-ill_typed odd_text (1 ∷ []) message (str "x") refl

helper_acked : (end_requests (2 ∷ 1 ∷ []) node).1 ≡ true
unfolding end_requests
helper_acked = refl

nobody_acked : (end_requests (2 ∷ []) node).1 ≡ false
unfolding end_requests
nobody_acked = refl

alone : probe_once (λ m ms. m) (new_agent (default_config "a")).node ≡ none
unfolding probe_once new_agent
alone = refl
