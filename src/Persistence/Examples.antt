-- ===== src/Persistence/Examples.antt =====
-- Persistent topics on concrete values.
use tarwyn.Base.{ℕ, true, ◌^◌, ◌≡◌, refl, none, some, [], ◌∷◌, ◌++◌, map, utf8, text_eq, arith}
use tarwyn.Base.Assoc.{lookup}
use tarwyn.Base.Int.{negsuc}
use tarwyn.DataType.{xt_data_type, data_type_from_string}
use tarwyn.Json.{Json, Fields, end, field, as_i64, number_i64, get, as_bool}
use tarwyn.Persistence.{
  Base64, value_to_json, value_from_json, persistent_to_json, persistent_from_json,
}
use tarwyn.Persistence.RoundTrip.{restored, value_from_json-value_to_json}
use tarwyn.Persistence.Snapshot.{
  restored_entry, persistent_from_json-persistent_to_json, persistent_snapshot-restore_persistent,
}
use tarwyn.Registry.Invariant.Reach.{start, Reach-IsValid}
use tarwyn.Registry.Lifecycle.{PersistentTopic, persistent_snapshot, restore_persistent}
use tarwyn.Registry.State.{new, Env}
use tarwyn.Value.{Floats, int16, uint64, double}

abbrev plain_floats : Floats
plain_floats = record { f32_to_f64 = λ x. x; f64_to_f32 = λ x. x; int_to_f64 = λ _. 0 }

-- A stand-in for base64 that reads what it writes.
abbrev plain_base64 : Base64
plain_base64 = record { encode = λ b. b; decode = λ t. some t }

abbrev room : Env
room = record { floats = plain_floats; clock = λ n. n }

abbrev persistent_property : Fields
persistent_property = field (utf8 "persistent") (Json.bool true) end

abbrev gain : PersistentTopic
gain = record {
  name = utf8 "/gain";
  type_str = utf8 "int";
  properties = persistent_property;
  value = int16 (negsuc 4);
}

abbrev limit : PersistentTopic
limit = record {
  name = utf8 "/limit";
  type_str = utf8 "double";
  properties = persistent_property;
  value = double 0;
}

typed_int : data_type_from_string (utf8 "int") ≡ xt_data_type (int16 (negsuc 4))
unfolding data_type_from_string xt_data_type
typed_int = refl

typed_double : data_type_from_string (utf8 "double") ≡ xt_data_type (double 0)
unfolding data_type_from_string xt_data_type
typed_double = refl

value_from_json-value_to_json_example :
    value_from_json plain_base64 plain_floats
      (utf8 "int")
      (value_to_json plain_base64 plain_floats (int16 (negsuc 4)))
    ≡ some (restored (int16 (negsuc 4)))
value_from_json-value_to_json_example =
    value_from_json-value_to_json plain_base64 plain_floats (λ b. refl) (utf8 "int")
      (int16 (negsuc 4)) typed_int (omega arith)

persistent_from_json-persistent_to_json_example :
    persistent_from_json plain_base64 plain_floats
      (some (persistent_to_json plain_base64 plain_floats (gain ∷ limit ∷ [])))
    ≡ map restored_entry (gain ∷ limit ∷ [])
persistent_from_json-persistent_to_json_example =
    persistent_from_json-persistent_to_json plain_base64 plain_floats (λ b. refl)
      (gain ∷ limit ∷ []) ((typed_int, omega arith), ((typed_double, refl), tt))

unknown_gain : lookup {V = ℕ} (utf8 "/gain") [] ≡ none
unfolding lookup
unknown_gain = refl

unknown_limit : lookup {V = ℕ} (utf8 "/limit") [] ≡ none
unfolding lookup
unknown_limit = refl

persistent_snapshot-restore_persistent_example :
    persistent_snapshot (restore_persistent (gain ∷ limit ∷ []) 5 new)
    ≡ persistent_snapshot new ++ (gain ∷ limit ∷ [])
unfolding get as_bool
persistent_snapshot-restore_persistent_example =
    persistent_snapshot-restore_persistent 5 (gain ∷ limit ∷ []) new
      (Reach-IsValid {env = room} start)
      (refl, unknown_gain, (refl, tt), (refl, unknown_limit, tt, tt))

-- An unsigned number above the signed ones is saved and not restored.
too_large :
    value_from_json plain_base64 plain_floats
      (utf8 "int")
      (value_to_json plain_base64 plain_floats (uint64 (2 ^ 63)))
    ≡ none
unfolding value_from_json value_to_json as_i64 number_i64
too_large = refl
