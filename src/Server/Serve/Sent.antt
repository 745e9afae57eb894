-- ===== src/Server/Serve/Sent.antt =====
-- Client 5 publishes a lamp, client 6 is subscribed to it: 5's value comes to 6.
use tarwyn.Base.{ℕ, ◌+◌, ◌≡◌, refl, Bool, true, false, none, List, [], ◌∷◌, utf8, text_eq}
use tarwyn.Base.Assoc.{lookup}
use tarwyn.Base.Bytes.{Bytes}
use tarwyn.Json.{end}
use tarwyn.Message.Value.{ValueMessage, encode_value_message}
use tarwyn.Message.Value.Stream.{joined}
use tarwyn.Msgpack.Encode.{encode_value, encode_array_header, encode_uint, encode_i64}
use tarwyn.Registry.State.{value, NtRegistry, TopicState, Env, new}
use tarwyn.Server.Requests.{Node}
use tarwyn.Server.Sample.{plain_floats, codec, collect, empty_node, noon}
use tarwyn.Server.Serve.{serve}
use tarwyn.DataType.{xt_data_type}
use tarwyn.Registry.Core.{encode_once}
use tarwyn.Registry.Values.{topic_id_for_pubuid, conform, accepts_value}
use tarwyn.Session.Meant.{meant_frame, meant_frames}
use tarwyn.Session.{arrival_timestamp}
use tarwyn.Value.Conform.{conformed}
use tarwyn.Session.{binary}
use tarwyn.Transport.{Message}
use tarwyn.Value.{bool}

abbrev room : Env
room = record { floats = plain_floats; clock = λ n. n }

abbrev lamp : TopicState
lamp = record {
  name = utf8 "/lamp";
  data_type = 0;
  type_str = utf8 "boolean";
  properties = end;
  current = none;
  publishers = 1;
  retained = false;
  cached = true;
  persistent = false;
}

abbrev lit_room : NtRegistry
lit_room = record new {
  topics = (0, lamp) ∷ [];
  by_name = (utf8 "/lamp", 0) ∷ [];
  clients = (5, record { pubs = (11, 0) ∷ []; subs = []; conn_info = [] }) ∷ [];
  topic_subscribers = (0, 6 ∷ []) ∷ [];
  next_id = 1;
}

abbrev two_clients : Node ℕ (List Message)
two_clients = record empty_node {
  registry = lit_room;
  connections = record { senders = (5, 50) ∷ (6, 60) ∷ []; dropped = 0 };
}

abbrev lit : ValueMessage
lit = record { topic_id = 11; timestamp_micros = 9; data_type = 0; value = bool true }

abbrev lit_bytes : Bytes
lit_bytes = 0x94 ∷ 11 ∷ 9 ∷ 0 ∷ 0xc3 ∷ []

abbrev frame : Bytes
frame = joined ((lit, lit_bytes) ∷ [])

abbrev after : Node ℕ (List Message)
after = (serve collect codec room (λ _. none) (λ i. 100 + i) noon 5 (binary frame) two_clients).0

abbrev goes_on : Bool
goes_on = (serve collect codec room (λ _. none) (λ i. 100 + i) noon 5 (binary frame) two_clients).1

-- One frame for client 6, none for client 5.
lit_frames :
    (meant_frames plain_floats 5 (λ i. 100 + i) 0 lit_room 6 (lit ∷ [])
      ≡ value (0x94 ∷ 0 ∷ 9 ∷ 0 ∷ 0xc3 ∷ []) ∷ [])
    × (meant_frames plain_floats 5 (λ i. 100 + i) 0 lit_room 5 (lit ∷ []) ≡ [])
unfolding meant_frames meant_frame lookup topic_id_for_pubuid conform conformed accepts_value
    xt_data_type arrival_timestamp encode_once encode_value_message encode_array_header encode_uint
    encode_value encode_i64
lit_frames = (refl, refl)
