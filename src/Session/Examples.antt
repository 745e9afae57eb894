-- ===== src/Session/Examples.antt =====
-- Frames on concrete registries.
use tarwyn.Base.{◌+◌, ◌≡◌, refl, true, false, none, some, [], ◌∷◌, utf8, arith, nat_eq, text_eq}
use tarwyn.Base.Assoc.{lookup, modify}
use tarwyn.DataType.{xt_data_type}
use tarwyn.Json.{end}
use tarwyn.Message.Value.{ValueMessage}
use tarwyn.Registry.Access.{topic_name}
use tarwyn.Registry.Invariant.{IsValid}
use tarwyn.Registry.Invariant.Reach.{Reach, start, next, publishes}
use tarwyn.Registry.Publish.{handle_publish}
use tarwyn.Registry.State.{NtRegistry, TopicState, new}
use tarwyn.Registry.Values.{
  conform, topic_id_for_pubuid, accepts_value, handle_topic_value, store_value, is_newer, fan_out,
  handle_timestamp,
}
use tarwyn.Session.{Host, Payload, binary, route_message, arrival_timestamp}
use tarwyn.Session.Mirror.{IsTopic, route_message-mirrored}
use tarwyn.Session.Stamps.{IsPast, route_message-IsPast, route_message-retained}
use tarwyn.Value.{Floats, double}
use tarwyn.Value.Conform.{conformed}

abbrev plain_floats : Floats
plain_floats = record { f32_to_f64 = λ x. x; f64_to_f32 = λ x. x; int_to_f64 = λ _. 0 }

abbrev deaf : Host
deaf = record {
  env = record { floats = plain_floats; clock = λ n. n };
  from_str = λ _. none;
  control_handler = λ _. none;
  now = λ i. 100 + i;
}

abbrev published : NtRegistry
published = (handle_publish deaf.env 3 (utf8 "/speed") 11 (utf8 "double") end new).0

abbrev published_reached : Reach deaf.env published
published_reached = next start (publishes 3 (utf8 "/speed") 11 (utf8 "double") end)

-- A value message of publisher 11: a double at time 0.
abbrev value_frame : Payload
value_frame = binary (0x94 ∷ 0x0b ∷ 0x00 ∷ 0x01 ∷ 0xcb ∷ 0x3f ∷ 0xf0 ∷ 0 ∷ 0 ∷ 0 ∷ 0 ∷ 0 ∷ 0 ∷ [])

abbrev speed : TopicState
speed = record {
  name = utf8 "/speed";
  data_type = 1;
  type_str = utf8 "double";
  properties = end;
  current = some (record { ts_micros = 5; value = double 0 });
  publishers = 1;
  retained = false;
  cached = true;
  persistent = false;
}

-- Client 3 publishes the topic as 11.
abbrev driving : NtRegistry
driving = record new {
  topics = (0, speed) ∷ [];
  by_name = (utf8 "/speed", 0) ∷ [];
  clients = (3, record { pubs = (11, 0) ∷ []; subs = []; conn_info = [] }) ∷ [];
  next_id = 1;
}

driving-IsPast : IsPast 100 driving
unfolding lookup
driving-IsPast j t s h c = ground (arith, h, c)

-- A time stamp far ahead of the clock.
abbrev early : ValueMessage
early = record { topic_id = 11; timestamp_micros = 900; data_type = 1; value = double 7 }

route_message-IsPast_example : IsPast 100 (route_message plain_floats 3 100 early driving).0
route_message-IsPast_example = route_message-IsPast plain_floats 3 100 early driving driving-IsPast

abbrev unstamped : ValueMessage
unstamped = record early { timestamp_micros = 0 }

known : topic_id_for_pubuid driving 3 11 ≡ some 0
unfolding topic_id_for_pubuid lookup
known = refl

typed : xt_data_type (conform plain_floats driving 0 (double 7)) ≡ 1
unfolding xt_data_type conform lookup conformed
typed = refl

found : lookup 0 driving.topics ≡ some speed
unfolding lookup
found = refl

route_message-retained_example :
    lookup 0 (route_message plain_floats 3 100 unstamped driving).0.topics
    ≡ some (record speed {
      current =
          some (record { ts_micros = 100; value = conform plain_floats driving 0 (double 7) });
    })
route_message-retained_example =
    route_message-retained plain_floats 3 100 unstamped driving 0 speed driving-IsPast refl refl
      known found refl typed

driving-IsValid : IsValid driving
unfolding lookup
driving-IsValid = record {
  catalog = record {
    named =
        λ n id h. (speed, ground (arith, h), ground (arith, h, text_eq.eqb_iff (utf8 "/speed") n));
    listed = λ id t h. ground (arith, h, text_eq.eqb_iff (utf8 "/speed") t.name);
    below = λ id t h. ground (arith, h);
    free_below = λ id h. absurd cc;
    free_dead = λ id h. absurd cc;
    free_once = tt;
  };
}

seen : (route_message plain_floats 3 100 unstamped driving).1.1 ≡ (utf8 "/speed", double 7) ∷ []
unfolding route_message topic_id_for_pubuid lookup conform conformed accepts_value
    handle_topic_value store_value is_newer fan_out topic_name xt_data_type arrival_timestamp
    handle_timestamp modify
seen = refl

route_message-mirrored_example : IsTopic driving (utf8 "/speed") (xt_data_type (double 7))
route_message-mirrored_example =
    route_message-mirrored plain_floats 3 100 unstamped driving (utf8 "/speed") (double 7)
      driving-IsValid seen
