-- ===== src/Registry/Examples.antt =====
-- The registry on concrete states.
use tarwyn.Base.{
  if◌then◌else◌, ◌&&◌, contains, text_eq, nat_eq, ◌≤◌, ◌≡◌, refl, true, false, some, [], ◌∷◌, utf8,
  arith,
}
use tarwyn.Base.Assoc.{or_default, lookup}
use tarwyn.Json.{end}
use tarwyn.Registry.Core.{alloc_id, encode_once}
use tarwyn.Registry.Delete.{delete_fuel}
use tarwyn.Registry.Deletion.{delete_fuel-enough}
use tarwyn.Registry.FanOut.{frames_for, frames_for-handle_topic_value, handle_topic_value-monotone}
use tarwyn.Registry.Invariant.{IsValid}
use tarwyn.Registry.Invariant.Ids.{Allocates, alloc_id-Allocates}
use tarwyn.Registry.Invariant.Reach.{Reach, start, next, publishes, disconnects, Reach-IsValid}
use tarwyn.Registry.Lifecycle.{
  all_matched, on_disconnect, dedup_name, free_name, candidate, decimal, digits,
}
use tarwyn.Registry.Publish.{handle_publish}
use tarwyn.Registry.State.{NtRegistry, TopicState, StampedValue, Env, new, value}
use tarwyn.Registry.Values.{accepts_value, handle_topic_value}
use tarwyn.Value.{double}

abbrev room : Env
room = record {
  floats = record { f32_to_f64 = λ x. x; f64_to_f32 = λ x. x; int_to_f64 = λ _. 0 };
  clock = λ n. n;
}

abbrev speed : TopicState
speed = record {
  name = utf8 "/speed";
  data_type = 1;
  type_str = utf8 "double";
  properties = end;
  current = some (record { ts_micros = 5; value = double 0 });
  publishers = 1;
  retained = false;
  cached = true;
  persistent = false;
}

-- One topic with two subscribers.
abbrev driving : NtRegistry
driving = record new {
  topics = (0, speed) ∷ [];
  by_name = (utf8 "/speed", 0) ∷ [];
  topic_subscribers = (0, 3 ∷ 7 ∷ []) ∷ [];
  next_id = 1;
}

abbrev published : NtRegistry
published = (handle_publish room 3 (utf8 "/speed") 11 (utf8 "double") end new).0

abbrev left : NtRegistry
left = (on_disconnect room 3 published).0

abbrev reached : Reach room left
reached = next (next start (publishes 3 (utf8 "/speed") 11 (utf8 "double") end)) (disconnects 3)

Reach-IsValid_example : IsValid left
Reach-IsValid_example = Reach-IsValid reached

alloc_id-Allocates_example : Allocates left (alloc_id left).0 (alloc_id left).1
alloc_id-Allocates_example = alloc_id-Allocates left (Reach-IsValid reached)

frames_for-handle_topic_value_example :
    frames_for 7 (handle_topic_value 0 (double 1) 9 driving).1 ≡ (
      if accepts_value driving 0 (double 1)
        && contains 7 (or_default [] 0 driving.topic_subscribers)
      then value (encode_once (double 1) 9 0) ∷ []
      else [])
unfolding lookup
frames_for-handle_topic_value_example =
    frames_for-handle_topic_value 7 0 (double 1) 9 driving (refl, (refl, tt))

handle_topic_value-monotone_example :
    (t' : TopicState) × (s' : StampedValue) × (lookup 0
        (handle_topic_value 0 (double 1) 3 driving).0.topics
      ≡ some t')
    × (t'.current ≡ some s')
    × (5 ≤ s'.ts_micros)
unfolding lookup
handle_topic_value-monotone_example =
    handle_topic_value-monotone 0 (double 1) 3 driving speed
      (record { ts_micros = 5; value = double 0 }) refl refl

delete_fuel-enough_example : delete_fuel 2 driving 0 ≡ delete_fuel 9 driving 0
delete_fuel-enough_example = delete_fuel-enough 2 9 driving 0 (omega arith) (omega arith)

robot_2 : dedup_name (utf8 "robot") (utf8 "robot" ∷ utf8 "robot@1" ∷ []) ≡ some (utf8 "robot@2")
unfolding dedup_name free_name candidate decimal digits
robot_2 = refl

-- A topic that two subscriptions matched counts once.
matched_once :
    all_matched (
      record {
        patterns = [];
        prefix = false;
        topics_only = false;
        options = end;
        matched = 2 ∷ 4 ∷ [];
      }
      ∷ record {
        patterns = [];
        prefix = false;
        topics_only = false;
        options = end;
        matched = 4 ∷ 5 ∷ [];
      }
      ∷ [])
    ≡ 4 ∷ 5 ∷ 2 ∷ []
unfolding all_matched
matched_once = refl
