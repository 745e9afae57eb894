-- ===== src/Persistence/Snapshot.antt =====
-- Saving and restoring: the document, and the registry that takes the topics back.
use tarwyn.Base.{
  ℕ, ◌≡◌, refl, ap, ◌∙◌, sym, true, false, none, some, List, [], ◌∷◌, ◌++◌, map, All, Text, utf8,
  ◌==◌, nat_eq, text_eq, if◌then◌else◌, arith, append-nil, append_assoc, Option-cases, Bool-cases,
  inl, inr,
}
use tarwyn.Base.Assoc.{Assoc, lookup, insert, lookup-insert}
use tarwyn.DataType.{xt_data_type, data_type_from_string}
use tarwyn.Json.{items_of, get, as_str, as_object}
use tarwyn.Persistence.{
  Base64, row_to_json, persistent_to_json, row_fields, row_from_json, rows_from_json,
  persistent_from_json,
}
use tarwyn.Persistence.RoundTrip.{restored, IsStorable, value_from_json-value_to_json}
use tarwyn.Registry.Core.{alloc_id, add_topic}
use tarwyn.Registry.Invariant.{IsValid}
use tarwyn.Registry.Invariant.Ids.{alloc_id-Allocates}
use tarwyn.Registry.Invariant.Steps.{add_topic-IsValid}
use tarwyn.Registry.Lifecycle.{
  PersistentTopic, saved, snapshot_of, persistent_snapshot, restored_topic, restore_entries,
  restore_persistent,
}
use tarwyn.Registry.State.{NtRegistry, TopicState, flag, sync_properties}
use tarwyn.Value.{Floats}

-- A topic with its value as it is restored.
abbrev pub restored_entry : PersistentTopic → PersistentTopic
restored_entry p = record p { value = restored p.value }

module _ (B : Base64) (F : Floats) (decodes : (b : List ℕ) → B.decode (B.encode b) ≡ some b) where
  abbrev pub IsStorableEntry : PersistentTopic → Type 0
  IsStorableEntry p =
      (data_type_from_string p.type_str ≡ xt_data_type p.value) × IsStorable F p.value

  row_from_json-row_to_json :
      (p : PersistentTopic)
      → IsStorableEntry p
      → row_from_json B F (row_to_json B F p) ≡ some (restored_entry p)
  unfolding row_from_json row_fields row_to_json get as_str as_object
  row_from_json-row_to_json p (e, h) =
      rw (value_from_json-value_to_json B F decodes p.type_str p.value e h) refl

  rows_from_json-items_of :
      (ps : List PersistentTopic)
      → All IsStorableEntry ps
      → rows_from_json B F (items_of (map (row_to_json B F) ps)) ≡ map restored_entry ps
  unfolding rows_from_json
  rows_from_json-items_of [] hs = refl
  rows_from_json-items_of (p ∷ ps) (h, hs) =
      rw (row_from_json-row_to_json p h, rows_from_json, rows_from_json-items_of ps hs) refl

  -- The document of topics whose values have their topics' types, fit 64 signed bits and are
  -- finite is read back as those topics, each value as `restored` says, if base64 reads what it
  -- wrote.
  pub persistent_from_json-persistent_to_json :
      (ps : List PersistentTopic)
      → All IsStorableEntry ps
      → persistent_from_json B F (some (persistent_to_json B F ps)) ≡ map restored_entry ps
  unfolding persistent_from_json persistent_to_json
  persistent_from_json-persistent_to_json ps hs = rows_from_json-items_of ps hs

snapshot_of-insert :
    (id : ℕ) (t : TopicState) (m : Assoc ℕ TopicState)
    → lookup id m ≡ none
    → snapshot_of (insert id t m) ≡ snapshot_of m ++ snapshot_of ((id, t) ∷ [])
unfolding snapshot_of insert lookup
snapshot_of-insert id t [] e = refl
snapshot_of-insert id t ((j, s) ∷ m) e = elim (Bool-cases (j == id)) [
  | inl f ↦ absurd (ground (arith, e, f))
  | inr f ↦
      let rest : snapshot_of (insert id t m) ≡ snapshot_of m ++ snapshot_of ((id, t) ∷ []) =
        snapshot_of-insert id t m (ground (arith, e, f)) in
      elim (Option-cases (saved s)) [
        | inl g ↦ rw (f, g, snapshot_of) rest
        | inr (q, g) ↦ rw (f, g, snapshot_of) (ap (◌∷◌ q) rest)
      ]
]

saved-restored_topic :
    (ts : ℕ) (p : PersistentTopic)
    → flag false (utf8 "persistent") p.properties ≡ true
    → saved (restored_topic ts p) ≡ some p
unfolding saved restored_topic sync_properties
saved-restored_topic ts p h = rw h refl

-- Topics that a registry can take: all persistent by their properties, under names that differ from
-- one another and from those it has.
abbrev pub AreNew : NtRegistry → List PersistentTopic → Type 0
AreNew r [] = Unit
AreNew r (p ∷ ps) =
    (flag false (utf8 "persistent") p.properties ≡ true)
    × (lookup p.name r.by_name ≡ none)
    × All (λ q. (p.name == q.name) ≡ false) ps
    × AreNew r ps

module _ (ts : ℕ) (r : NtRegistry) (p : PersistentTopic) where
  abbrev after : NtRegistry
  after = (add_topic (restored_topic ts p) r).1

  by_name-after :
      IsValid r
      → (n : Text)
      → lookup n after.by_name ≡ (if p.name == n then some (alloc_id r).0 else lookup n r.by_name)
  unfolding add_topic restored_topic sync_properties
  by_name-after v n =
      let a = alloc_id-Allocates r v in
      rw (a.by_name) (lookup-insert n p.name (alloc_id r).0 r.by_name)

  AreNew-after :
      IsValid r
      → (ps : List PersistentTopic) → All (λ q. (p.name == q.name) ≡ false) ps
      → AreNew r ps
      → AreNew after ps
  AreNew-after v [] hs ns = tt
  AreNew-after v (q ∷ qs) (h, hs) (f, n, d, ns) =
      (f, rw (by_name-after v q.name, h) n, d, AreNew-after v qs hs ns)

  snapshot-after :
      IsValid r
      → flag false (utf8 "persistent") p.properties ≡ true
      → snapshot_of after.topics ≡ snapshot_of r.topics ++ (p ∷ [])
  unfolding add_topic
  snapshot-after v f =
      let a = alloc_id-Allocates r v in
      rw (a.topics, snapshot_of-insert (alloc_id r).0 (restored_topic ts p) r.topics a.dead)
        (ap (◌++◌ (snapshot_of r.topics)) one)
    where
      one : snapshot_of (((alloc_id r).0, restored_topic ts p) ∷ []) ≡ p ∷ []
      one = unfold snapshot_of in rw (saved-restored_topic ts p f, snapshot_of) refl

restore_entries-snapshot :
    (ts : ℕ) (ps : List PersistentTopic) (r : NtRegistry)
    → IsValid r
    → AreNew r ps
    → snapshot_of (restore_entries ts ps r).topics ≡ snapshot_of r.topics ++ ps
unfolding restore_entries
restore_entries-snapshot ts [] r v n = sym (append-nil (snapshot_of r.topics))
restore_entries-snapshot ts (p ∷ ps) r v (f, n, d, ns) =
    rw (n, restore_entries)
      (restore_entries-snapshot ts ps (after ts r p) valid (AreNew-after ts r p v ps d ns)
        ∙ (ap (λ l. l ++ ps) (snapshot-after ts r p v f)
            ∙ append_assoc (snapshot_of r.topics) (p ∷ []) ps))
  where
    valid : IsValid (after ts r p)
    valid = add_topic-IsValid (restored_topic ts p) v (unfold restored_topic sync_properties in n)

-- Topics restored into a registry are saved again as they were: if they are persistent and their
-- names are new and distinct, the next snapshot is the one that the registry had, followed by them.
pub persistent_snapshot-restore_persistent :
    (ts : ℕ) (ps : List PersistentTopic) (r : NtRegistry)
    → IsValid r
    → AreNew r ps
    → persistent_snapshot (restore_persistent ps ts r) ≡ persistent_snapshot r ++ ps
unfolding persistent_snapshot restore_persistent
persistent_snapshot-restore_persistent ts ps r v n = restore_entries-snapshot ts ps r v n
