-- ===== src/Server/Cache.antt =====
-- core/src/server.rs: the read cache, which keeps the newest value of each channel.
pub mod Values
pub mod Swap
pub mod Reach
mod Examples
use tarwyn.Base.{
  ℕ, ◌+◌, Bool, true, false, Option, none, some, List, [], ◌∷◌, Text, ◌==◌, nat_eq, text_eq, leb,
  length, if◌then◌else◌, and_then, not, is_some, ◌&&◌, ltb, map,
}
use tarwyn.Base.Assoc.{Assoc, lookup, insert, remove, keys}
use tarwyn.Kind.{Kind, Prost}
use tarwyn.Registry.State.{max_topics, starts_with}
use tarwyn.RingBuffer.{RingBuffer, new, push, peek}
use tarwyn.Server.Convert.{into_kind}
use tarwyn.Value.{Value}

-- `CHANNEL_HISTORY`
abbrev pub channel_history : ℕ
channel_history = 1

abbrev pub Cache : Type 0
Cache = Assoc Text (RingBuffer Kind)

unfoldable pub read : Cache → Text → Option Kind
read cached channel = and_then (lookup channel cached) peek

-- `value_sink`
unfoldable pub store : Prost → Text → Value → Cache → Cache
store P name v cached = elim (lookup name cached) [
  | some ring ↦ insert name (push (into_kind P v) ring) cached
  | none ↦
      if leb max_topics (length cached)
      then cached
      else insert name (push (into_kind P v) (new channel_history)) cached
]

-- `CompareAndSetCommand`; a value on the wire may hold no kind.
pub record CompareAndSet : Type 0 where
  pub channel : Text
  pub expect_absent : Bool
  pub expected : Option (Option Kind)
  pub value : Option (Option Kind)

abbrev pub flat {ℓ} : {A : Type ℓ} → Option (Option A) → Option A
flat (some o) = o
flat none = none

abbrev pub agree : (Kind → Kind → Bool) → Option Kind → Option Kind → Bool
agree same (some a) (some b) = same a b
agree same _ _ = false

unfoldable pub matches : (Kind → Kind → Bool) → Option Kind → CompareAndSet → Bool
matches same current c =
    if c.expect_absent then not (is_some current) else agree same current (flat c.expected)

-- `entry(channel).or_insert_with(..).push(kind)`
unfoldable pub push_channel : Text → Kind → Cache → Cache
push_channel channel kind cached = elim (lookup channel cached) [
  | some ring ↦ insert channel (push kind ring) cached
  | none ↦ insert channel (push kind (new channel_history)) cached
]

-- The cache, whether the value was swapped, and the value reported. `same` is the equality of
-- values, which prost derives.
unfoldable pub compare_and_set :
    (Kind → Kind → Bool) → CompareAndSet → Cache → Cache × (Bool × Option Kind)
compare_and_set same c cached =
    let current = read cached c.channel in
    if not (matches same current c) then (cached, (false, current)) else elim (flat c.value) [
      | none ↦ (cached, (false, current))
      | some kind ↦
          if not (is_some current) && leb max_topics (length cached)
          then (cached, (false, none))
          else (push_channel c.channel kind cached, (true, some kind))
    ]

-- The arm of the control handler that deletes: the cache and how many channels went.
unfoldable pub delete_channels : Text → Cache → Cache × ℕ
delete_channels [] cached = ([], length cached)
delete_channels (b ∷ bs) cached =
    (remove (b ∷ bs) cached, if is_some (lookup (b ∷ bs) cached) then 1 else 0)

-- `String` order: byte by byte.
unfoldable pub text_leb : Text → Text → Bool
text_leb [] t = true
text_leb (x ∷ xs) [] = false
text_leb (x ∷ xs) (y ∷ ys) = let rest = text_leb xs ys in if x == y then rest else ltb x y

unfoldable pub insert_text : Text → List Text → List Text
insert_text t [] = t ∷ []
insert_text t (u ∷ us) =
    let rest = insert_text t us in if text_leb t u then t ∷ u ∷ us else u ∷ rest

-- `Vec::sort`
unfoldable pub sort_texts : List Text → List Text
sort_texts [] = []
sort_texts (t ∷ ts) = insert_text t (sort_texts ts)

unfoldable pub under_prefix : Text → List Text → List Text
under_prefix prefix [] = []
under_prefix prefix (n ∷ ns) =
    let rest = under_prefix prefix ns in if starts_with n prefix then n ∷ rest else rest

-- The arm that lists the channels.
unfoldable pub tables : Text → Cache → List Text
tables prefix cached = sort_texts (under_prefix prefix (keys cached))

unfoldable pub count_values : Cache → ℕ
count_values [] = 0
count_values ((n, ring) ∷ rest) = length ring.items + count_values rest
