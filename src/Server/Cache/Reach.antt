-- ===== src/Server/Cache/Reach.antt =====
-- The read cache over a run of the server: values that the registry passes on, requests to swap and
-- requests to delete, in any order.
use tarwyn.Base.{
  ◌≤◌, ◌≡◌, refl, Bool, true, none, some, [], ◌∷◌, Text, ◌==◌, text_eq, length, if◌then◌else◌,
  is_some, ◌||◌, ◌&&◌, ltb, arith, Bool-cases, inl, inr,
}
use tarwyn.Base.Assoc.{lookup, lookup-remove, length-remove-le, All-remove}
use tarwyn.Kind.{Kind, Prost}
use tarwyn.Registry.State.{max_topics}
use tarwyn.Server.Cache.{
  Cache, read, store, CompareAndSet, push_channel, compare_and_set, delete_channels, count_values,
}
use tarwyn.Server.Cache.Swap.{grants, compare_and_set_cases}
use tarwyn.Server.Cache.Values.{
  HoldsOne, HoldOne, push_channel-HoldOne, length-push_channel, store_cases, is_some-read,
  read-push_channel,
}
use tarwyn.Server.Convert.{into_kind}
use tarwyn.Value.{Value}

pub data CacheReach (P : Prost) (same : Kind → Kind → Bool) : Cache → Type 0 where
  started : CacheReach P same []
  passed_on :
      (name : Text) (v : Value) {cached : Cache}
      → CacheReach P same cached
      → CacheReach P same (store P name v cached)
  asked :
      (c : CompareAndSet) {cached : Cache}
      → CacheReach P same cached
      → CacheReach P same (compare_and_set same c cached).0
  cleared :
      (channel : Text) {cached : Cache}
      → CacheReach P same cached
      → CacheReach P same (delete_channels channel cached).0

abbrev pub IsCache : Cache → Type 0
IsCache cached = HoldOne cached × (length cached ≤ max_topics)

push_channel-IsCache :
    (n : Text) (k : Kind) (cached : Cache)
    → IsCache cached
    → (is_some (lookup n cached) || ltb (length cached) max_topics) ≡ true
    → IsCache (push_channel n k cached)
push_channel-IsCache n k cached (h, l) room =
    (push_channel-HoldOne n k cached h, ground (arith, length-push_channel n k cached, l, room))

store-IsCache :
    (P : Prost) (n : Text) (v : Value) (cached : Cache)
    → IsCache cached
    → IsCache (store P n v cached)
store-IsCache P n v cached h =
    elim (Bool-cases (is_some (lookup n cached) || ltb (length cached) max_topics)) [
      | inl room ↦
          rw (store_cases P n v cached, room) (push_channel-IsCache n (into_kind P v) cached h room)
      | inr full ↦ rw (store_cases P n v cached, full) h
    ]

grants_room :
    (same : Kind → Kind → Bool) (c : CompareAndSet) (cached : Cache)
    → HoldOne cached
    → grants same c cached ≡ true
    → (is_some (lookup c.channel cached) || ltb (length cached) max_topics) ≡ true
unfolding grants
grants_room same c cached h g = ground (arith, is_some-read c.channel cached h, g)

compare_and_set-IsCache :
    (same : Kind → Kind → Bool) (c : CompareAndSet) (cached : Cache)
    → IsCache cached
    → IsCache (compare_and_set same c cached).0
compare_and_set-IsCache same c cached h = elim (compare_and_set_cases same c cached) [
  | inl (k, g, v, r) ↦
      rw r (push_channel-IsCache c.channel k cached h (grants_room same c cached h.0 g))
  | inr (g, r) ↦ rw r h
]

delete_channels-IsCache :
    (channel : Text) (cached : Cache) → IsCache cached → IsCache (delete_channels channel cached).0
unfolding delete_channels
delete_channels-IsCache [] cached h = (tt, omega arith)
delete_channels-IsCache (b ∷ bs) cached (h, l) =
    (All-remove HoldsOne (b ∷ bs) cached h, omega (arith, length-remove-le (b ∷ bs) cached, l))

pub Reach-IsCache :
    (P : Prost) (same : Kind → Kind → Bool) {cached : Cache}
    → CacheReach P same cached
    → IsCache cached
Reach-IsCache P same started = (tt, omega arith)
Reach-IsCache P same (passed_on n v {cached = cached} r) =
    store-IsCache P n v cached (Reach-IsCache P same r)
Reach-IsCache P same (asked c {cached = cached} r) =
    compare_and_set-IsCache same c cached (Reach-IsCache P same r)
Reach-IsCache P same (cleared n {cached = cached} r) =
    delete_channels-IsCache n cached (Reach-IsCache P same r)

count_held : (cached : Cache) → HoldOne cached → count_values cached ≡ length cached
unfolding count_values
count_held [] h = refl
count_held ((n, ring) ∷ rest) ((c, l), h) = omega (arith, l, count_held rest h)

-- However values arrive, are swapped and are deleted, the cache has at most as many channels as
-- there may be topics, and the count of values that the statistics report is that of channels.
pub count_values-CacheReach :
    (P : Prost) (same : Kind → Kind → Bool) (cached : Cache)
    → CacheReach P same cached
    → (length cached ≤ max_topics) × (count_values cached ≡ length cached)
count_values-CacheReach P same cached r =
    let (h, l) = Reach-IsCache P same r in (l, count_held cached h)

-- A value that arrives is read back at once if its channel is known or there is room, and no other
-- channel reads differently.
pub read-store :
    (P : Prost) (same : Kind → Kind → Bool) (cached : Cache) (n j : Text) (v : Value)
    → CacheReach P same cached
    → read (store P n v cached) j ≡ (
        if (n == j) && (is_some (read cached n) || ltb (length cached) max_topics)
        then some (into_kind P v)
        else read cached j)
read-store P same cached n j v r =
    let h = (Reach-IsCache P same r).0 in
    elim (Bool-cases (is_some (lookup n cached) || ltb (length cached) max_topics)) [
      | inl room ↦
          rw (store_cases P n v cached, is_some-read n cached h, room)
            (ground (arith, read-push_channel n j (into_kind P v) cached h))
      | inr full ↦ rw (store_cases P n v cached, is_some-read n cached h, full) (ground arith)
    ]

-- A deletion empties the channel named, or every channel if none is named, leaves the others, and
-- counts the channels that went.
pub read-delete_channels :
    (n j : Text) (cached : Cache)
    → (read (delete_channels n cached).0 j
        ≡ (if (n == j) || (n == []) then none else read cached j))
      × ((delete_channels n cached).1
          ≡ (if n == [] then length cached else if is_some (lookup n cached) then 1 else 0))
unfolding read delete_channels lookup
read-delete_channels [] j cached = (ground arith, refl)
read-delete_channels (b ∷ bs) j cached = (ground (arith, lookup-remove j (b ∷ bs) cached), refl)
