-- ===== src/Server/Cache/Values.antt =====
-- What the read cache holds: one value a channel, at most as many channels as topics, whatever is
-- stored, swapped and deleted.
use tarwyn.Base.{
  ◌+◌, ◌<◌, ◌≡◌, refl, true, some, List, [], ◌∷◌, Text, ◌==◌, nat_eq, text_eq, length,
  if◌then◌else◌, is_some, ◌||◌, ltb, arith, Option-cases, All, inl, inr, option_map, drop,
  length-append, length-drop,
}
use tarwyn.Base.Assoc.{lookup, insert, lookup-insert, length-insert, All-insert, All-lookup}
use tarwyn.Kind.{Kind, Prost}
use tarwyn.Registry.State.{max_topics}
use tarwyn.RingBuffer.{RingBuffer, new, push, peek, pop_back}
use tarwyn.RingBuffer.Newest.{peek-push}
use tarwyn.Server.Cache.{Cache, channel_history, read, store, push_channel}
use tarwyn.Server.Convert.{into_kind}
use tarwyn.Value.{Value}

abbrev pub HoldsOne : RingBuffer Kind → Type 0
HoldsOne ring = (ring.capacity ≡ channel_history) × (length ring.items ≡ channel_history)

abbrev pub HoldOne : Cache → Type 0
HoldOne cached = All (λ e. HoldsOne e.1) cached

pub push-HoldsOne : (k : Kind) (ring : RingBuffer Kind) → HoldsOne ring → HoldsOne (push k ring)
unfolding push
push-HoldsOne k ring (c, n) =
    ground (arith, c, n, length-append (drop 1 ring.items) (k ∷ []), length-drop 1 ring.items)

push-new-HoldsOne : (k : Kind) → HoldsOne (push k (new channel_history))
unfolding push new
push-new-HoldsOne k = (refl, refl)

pop_back_some : {A : Type 0} (x : A) (xs : List A) → is_some (pop_back (x ∷ xs)) ≡ true
unfolding pop_back
pop_back_some x xs = elim (Option-cases (pop_back xs)) [
  | inl e ↦ rw e refl
  | inr (y, e) ↦ rw e refl
]

pub peek-HoldsOne : (ring : RingBuffer Kind) → HoldsOne ring → is_some (peek ring) ≡ true
unfolding peek
peek-HoldsOne ring h = some_of ring.items h.1
  where
    some_of : (l : List Kind) → length l ≡ 1 → is_some (option_map (λ p. p.0) (pop_back l)) ≡ true
    some_of [] e = absurd (omega (arith, e))
    some_of (x ∷ xs) e = elim (Option-cases (pop_back (x ∷ xs))) [
      | inl f ↦ absurd (ground (arith, f, pop_back_some x xs))
      | inr (y, f) ↦ rw f refl
    ]

pub read-insert :
    (n j : Text) (k : Kind) (ring : RingBuffer Kind) (cached : Cache)
    → 0 < ring.capacity
    → read (insert n (push k ring) cached) j ≡ (if n == j then some k else read cached j)
unfolding read
read-insert n j k ring cached h =
    ground (arith, lookup-insert j n (push k ring) cached, peek-push k ring h)

pub new_capacity : 0 < (new {A = Kind} channel_history).capacity
unfolding new
new_capacity = omega arith

pub ring-HoldsOne :
    (n : Text) (cached : Cache) {ring : RingBuffer Kind}
    → HoldOne cached
    → lookup n cached ≡ some ring
    → HoldsOne ring
ring-HoldsOne n cached h e = All-lookup HoldsOne n cached h e

pub read-push_channel :
    (n j : Text) (k : Kind) (cached : Cache)
    → HoldOne cached
    → read (push_channel n k cached) j ≡ (if n == j then some k else read cached j)
unfolding push_channel read
read-push_channel n j k cached h = elim (Option-cases (lookup n cached)) [
  | inl e ↦ rw (push_channel, e) (read-insert n j k (new channel_history) cached new_capacity)
  | inr (ring, e) ↦
      rw (push_channel, e)
        (read-insert n j k ring cached (omega (arith, (ring-HoldsOne n cached h e).0)))
]

pub push_channel-HoldOne :
    (n : Text) (k : Kind) (cached : Cache) → HoldOne cached → HoldOne (push_channel n k cached)
unfolding push_channel
push_channel-HoldOne n k cached h = elim (Option-cases (lookup n cached)) [
  | inl e ↦ rw (push_channel, e) (All-insert HoldsOne n _ cached (push-new-HoldsOne k) h)
  | inr (ring, e) ↦
      rw (push_channel, e)
        (All-insert HoldsOne n _ cached (push-HoldsOne k ring (ring-HoldsOne n cached h e)) h)
]

pub length-push_channel :
    (n : Text) (k : Kind) (cached : Cache)
    → length (push_channel n k cached)
      ≡ (if is_some (lookup n cached) then length cached else length cached + 1)
unfolding push_channel
length-push_channel n k cached = elim (Option-cases (lookup n cached)) [
  | inl e ↦
      rw (push_channel, e)
        (ground (arith, e, length-insert n (push k (new channel_history)) cached))
  | inr (ring, e) ↦ rw (push_channel, e) (ground (arith, e, length-insert n (push k ring) cached))
]

-- `value_sink` pushes where the channel is known or there is room.
pub store_cases :
    (P : Prost) (n : Text) (v : Value) (cached : Cache)
    → store P n v cached ≡ (
        if is_some (lookup n cached) || ltb (length cached) max_topics
        then push_channel n (into_kind P v) cached
        else cached)
unfolding store push_channel
store_cases P n v cached = elim (Option-cases (lookup n cached)) [
  | inl e ↦ rw (store, push_channel, e) (ground arith)
  | inr (ring, e) ↦ rw (store, push_channel, e) refl
]

-- A ring holds a value, so a channel is in the cache just if it can be read.
pub is_some-read :
    (n : Text) (cached : Cache)
    → HoldOne cached
    → is_some (read cached n) ≡ is_some (lookup n cached)
unfolding read
is_some-read n cached h = elim (Option-cases (lookup n cached)) [
  | inl e ↦ rw e refl
  | inr (ring, e) ↦ rw e (peek-HoldsOne ring (ring-HoldsOne n cached h e))
]
