-- ===== src/Registry/Deletion.antt =====
-- `delete_topic` of core/src/websocket/protocol.rs: its recursion ends, and the topic is gone.
use tarwyn.Base.{
  ℕ, zero, suc, ◌≤◌, ◌<◌, ◌≡◌, refl, none, some, Text, utf8, ◌++◌, length, Option-cases, inl, inr,
  arith, nat_eq, text_eq,
}
use tarwyn.Base.Assoc.{lookup, lookup-remove, length-remove-lt}
use tarwyn.Registry.Core.{free_id}
use tarwyn.Registry.Delete.{drop_topic, delete_named, delete_fuel, delete_topic}
use tarwyn.Registry.State.{NtRegistry, TopicState}

length-drop_topic :
    (id : ℕ) (t : TopicState) (r : NtRegistry)
    → lookup id r.topics ≡ some t
    → length (drop_topic id t r).topics < length r.topics
unfolding drop_topic free_id
length-drop_topic id t r e = length-remove-lt id t r.topics e

-- A deletion by name does what the deletion by id does, or nothing.
named_le :
    (delete : NtRegistry → ℕ → NtRegistry)
    → ((r : NtRegistry) (id : ℕ) → length (delete r id).topics ≤ length r.topics)
    → (n : Text) (r : NtRegistry) → length (delete_named delete n r).topics ≤ length r.topics
unfolding delete_named
named_le delete h n r = elim (Option-cases (lookup n r.by_name)) [
  | inl e ↦ rw (e, delete_named) (omega arith)
  | inr (id, e) ↦ rw (e, delete_named) (h r id)
]

delete_fuel_le :
    (fuel : ℕ) (r : NtRegistry) (id : ℕ) → length (delete_fuel fuel r id).topics ≤ length r.topics
unfolding delete_fuel
delete_fuel_le zero r id = omega arith
delete_fuel_le (suc fuel) r id = elim (Option-cases (lookup id r.topics)) [
  | inl e ↦ rw (e, delete_fuel) (omega arith)
  | inr (t, e) ↦
      rw (e, delete_fuel)
        (omega (
          arith,
          named_le (delete_fuel fuel) (delete_fuel_le fuel) (utf8 "$sub$" ++ t.name)
              (delete_named (delete_fuel fuel) (utf8 "$pub$" ++ t.name) (drop_topic id t r)),
          named_le (delete_fuel fuel) (delete_fuel_le fuel) (utf8 "$pub$" ++ t.name)
              (drop_topic id t r),
          length-drop_topic id t r e,
        ))
]

named_same :
    (f g : NtRegistry → ℕ → NtRegistry) (n : Text) (r : NtRegistry)
    → ((id : ℕ) → f r id ≡ g r id)
    → delete_named f n r ≡ delete_named g n r
unfolding delete_named
named_same f g n r h = elim (Option-cases (lookup n r.by_name)) [
  | inl e ↦ rw (e, delete_named) refl
  | inr (id, e) ↦ rw (e, delete_named) (h id)
]

-- Any two amounts of fuel above the number of topics delete alike, so the fuel that
-- `delete_topic` gives is enough.
pub delete_fuel-enough :
    (n m : ℕ) (r : NtRegistry) (id : ℕ)
    → length r.topics < n
    → length r.topics < m
    → delete_fuel n r id ≡ delete_fuel m r id
unfolding delete_fuel
delete_fuel-enough zero m r id h k = absurd (omega arith)
delete_fuel-enough (suc n) zero r id h k = absurd (omega arith)
delete_fuel-enough (suc n) (suc m) r id h k = elim (Option-cases (lookup id r.topics)) [
  | inl e ↦ rw (e, delete_fuel) refl
  | inr (t, e) ↦ rw (e, delete_fuel) (same (λ s j. delete_fuel-enough n m s j) t e)
]
  where
    same :
        ((s : NtRegistry) (j : ℕ)
          → length s.topics < n
          → length s.topics < m
          → delete_fuel n s j ≡ delete_fuel m s j)
        → (t : TopicState) → lookup id r.topics ≡ some t
        → delete_named
            (delete_fuel n)
            (utf8 "$sub$" ++ t.name)
            (delete_named (delete_fuel n) (utf8 "$pub$" ++ t.name) (drop_topic id t r))
          ≡ delete_named
              (delete_fuel m)
              (utf8 "$sub$" ++ t.name)
              (delete_named (delete_fuel m) (utf8 "$pub$" ++ t.name) (drop_topic id t r))
    same again t e =
        let s = drop_topic id t r in
        let p = utf8 "$pub$" ++ t.name in
        let less : length s.topics < length r.topics = length-drop_topic id t r e in
        let first : delete_named (delete_fuel n) p s ≡ delete_named (delete_fuel m) p s =
          named_same (delete_fuel n) (delete_fuel m) p s
            (λ j. again s j (omega arith) (omega arith)) in
        let small : length (delete_named (delete_fuel m) p s).topics ≤ length s.topics =
          named_le (delete_fuel m) (delete_fuel_le m) p s in
        rw (first) (
          named_same (delete_fuel n) (delete_fuel m) (utf8 "$sub$" ++ t.name)
            (delete_named (delete_fuel m) p s) (λ j. again _ j (omega arith) (omega arith)))

-- No deletion brings a topic back.
module _ (j : ℕ) where
  abbrev Gone : NtRegistry → Type 0
  Gone r = lookup j r.topics ≡ none

  named-Gone :
      (delete : NtRegistry → ℕ → NtRegistry)
      → ((r : NtRegistry) (id : ℕ) → Gone r → Gone (delete r id))
      → (n : Text) (r : NtRegistry) → Gone r
      → Gone (delete_named delete n r)
  unfolding delete_named
  named-Gone delete h n r g = elim (Option-cases (lookup n r.by_name)) [
    | inl e ↦ rw (e, delete_named) g
    | inr (id, e) ↦ rw (e, delete_named) (h r id g)
  ]

  drop_topic-Gone : (id : ℕ) (t : TopicState) (r : NtRegistry) → Gone r → Gone (drop_topic id t r)
  unfolding drop_topic free_id
  drop_topic-Gone id t r g = ground (arith, lookup-remove j id r.topics)

  delete_fuel-Gone : (fuel : ℕ) (r : NtRegistry) (id : ℕ) → Gone r → Gone (delete_fuel fuel r id)
  unfolding delete_fuel
  delete_fuel-Gone zero r id g = g
  delete_fuel-Gone (suc fuel) r id g = elim (Option-cases (lookup id r.topics)) [
    | inl e ↦ rw (e, delete_fuel) g
    | inr (t, e) ↦
        rw (e, delete_fuel)
          (named-Gone (delete_fuel fuel) (delete_fuel-Gone fuel) _ _
            (named-Gone (delete_fuel fuel) (delete_fuel-Gone fuel) _ _ (drop_topic-Gone id t r g)))
  ]

dropped : (id : ℕ) (t : TopicState) (r : NtRegistry) → lookup id (drop_topic id t r).topics ≡ none
unfolding drop_topic free_id
dropped id t r = ground (arith, lookup-remove id id r.topics)

-- After `delete_topic` the id is no topic's, whether or not it was one before.
pub delete_topic-gone : (r : NtRegistry) (id : ℕ) → lookup id (delete_topic r id).0.topics ≡ none
unfolding delete_topic delete_fuel
delete_topic-gone r id = elim (Option-cases (lookup id r.topics)) [
  | inl e ↦ rw (e, delete_topic, delete_fuel) e
  | inr (t, e) ↦
      rw (e, delete_topic, delete_fuel)
        (named-Gone id (delete_fuel _) (delete_fuel-Gone id _) _ _
          (named-Gone id (delete_fuel _) (delete_fuel-Gone id _) _ _ (dropped id t r)))
]
