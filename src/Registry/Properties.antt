-- ===== src/Registry/Properties.antt =====
-- `handle_setproperties` and `set_retained`.
use tarwyn.Base.{
  ℕ, ◌+◌, Bool, true, ◌||◌, none, some, [], map, Text, ◌==◌, nat_eq, text_eq, if◌then◌else◌,
}
use tarwyn.Base.Assoc.{lookup, modify, or_default}
use tarwyn.Json.{Fields, end, field, put, delete, is_null}
use tarwyn.Registry.Core.{properties_json}
use tarwyn.Registry.State.{NtRegistry, TopicState, text, Routes, sync_properties}

unfoldable pub modify_topic : ℕ → (TopicState → TopicState) → NtRegistry → NtRegistry
modify_topic id f r = record r { topics = modify id f r.topics }

abbrev pub bump_generation : Bool → NtRegistry → NtRegistry
bump_generation moved r = record r {
  persistent_generation = if moved then r.persistent_generation + 1 else r.persistent_generation;
}

-- The loop over the update: a null takes a property away.
unfoldable pub apply_update : Fields → Fields → Fields
apply_update end properties = properties
apply_update (field k v rest) properties =
    apply_update rest (if is_null v then delete k properties else put k v properties)

unfoldable pub updated_topic : Fields → TopicState → TopicState
updated_topic update t =
    sync_properties (record t { properties = apply_update update t.properties })

unfoldable pub update_topic : Fields → ℕ → NtRegistry → NtRegistry
update_topic update id r = elim (lookup id r.topics) [
  | none ↦ r
  | some t ↦
      bump_generation (t.persistent || (updated_topic update t).persistent)
        (modify_topic id (updated_topic update) r)
]

unfoldable pub handle_setproperties : ℕ → Text → Fields → NtRegistry → NtRegistry × Routes
handle_setproperties client name update r = elim (lookup name r.by_name) [
  | none ↦ (r, [])
  | some id ↦
      let r1 = update_topic update id r in
      (
        r1,
        map (λ c. (c, text (properties_json name update (if c == client then some true else none))))
            (or_default [] id r1.topic_announced),
      )
]

unfoldable pub set_retained : Text → Bool → NtRegistry → NtRegistry
set_retained name retained r = elim (lookup name r.by_name) [
  | none ↦ r
  | some id ↦ modify_topic id (λ t. record t { retained = retained }) r
]
