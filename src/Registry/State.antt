-- ===== src/Registry/State.antt =====
-- The registry's state, and what its records answer of themselves. A topic's or a client's id, a
-- count and a time stamp are plain numbers. `HashMap` and `HashSet` are lists without repetition;
-- the order in which they are walked is the list's.
use tarwyn.Base.{
  ℕ, Bool, true, false, not, ◌&&◌, ◌||◌, Option, List, [], ◌∷◌, ◌++◌, any, Text, utf8, ◌==◌, nat_eq,
  text_eq, and_then, unwrap_or, contains, if◌then◌else◌,
}
use tarwyn.Base.Assoc.{Assoc}
use tarwyn.Base.Bytes.{Bytes}
use tarwyn.Json.{Json, Fields, get, as_bool}
use tarwyn.Value.{Value, Floats}

-- `MAX_PER_CLIENT`
abbrev pub max_per_client : ℕ
max_per_client = 512

-- `MAX_TOPICS`
abbrev pub max_topics : ℕ
max_topics = 16384

unfoldable pub starts_with : Text → Text → Bool
starts_with name [] = true
starts_with [] (p ∷ ps) = false
starts_with (c ∷ cs) (p ∷ ps) = c == p && starts_with cs ps

unfoldable pub is_meta_topic : Text → Bool
unfolding starts_with
is_meta_topic name = starts_with name (utf8 "$")

-- An outbound frame: the JSON document of a control message, or an encoded value message.
pub data Outbound : Type 0 where
  text : Json → Outbound
  value : Bytes → Outbound

abbrev pub Routes : Type 0
Routes = List (ℕ × Outbound)

pub record StampedValue : Type 0 where
  pub ts_micros : ℕ
  pub value : Value

pub record TopicState : Type 0 where
  pub name : Text
  pub data_type : ℕ
  pub type_str : Text
  pub properties : Fields
  pub current : Option StampedValue
  pub publishers : ℕ
  pub retained : Bool
  pub cached : Bool
  pub persistent : Bool

-- `properties.get(key).and_then(Json::as_bool).unwrap_or(default)`
abbrev pub flag : Bool → Text → Fields → Bool
flag default key properties = unwrap_or default (and_then (get key properties) as_bool)

unfoldable pub sync_properties : TopicState → TopicState
sync_properties t = record t {
  cached = flag true (utf8 "cached") t.properties;
  persistent = flag false (utf8 "persistent") t.properties;
}

unfoldable pub is_retained : TopicState → Bool
is_retained t =
    t.retained
    || any (λ key. flag false key t.properties) (utf8 "persistent" ∷ utf8 "retained" ∷ [])

pub record Subscription : Type 0 where
  pub patterns : List Text
  pub prefix : Bool
  pub topics_only : Bool
  pub matched : List ℕ
  pub options : Fields

unfoldable pub sub_visible_to : Subscription → Text → Bool
unfolding starts_with
sub_visible_to sub topic_name =
    not (starts_with topic_name (utf8 "$")) || any (λ p. starts_with p (utf8 "$")) sub.patterns

unfoldable pub pattern_matches : Bool → Text → Text → Bool
unfolding starts_with
pattern_matches prefix pattern name = if prefix then starts_with name pattern else name == pattern

unfoldable pub sub_matches : Subscription → Text → Bool
unfolding pattern_matches
sub_matches sub name = any (λ p. pattern_matches sub.prefix p name) sub.patterns

pub record ClientState : Type 0 where
  pub pubs : Assoc ℕ ℕ
  pub subs : Assoc ℕ Subscription
  pub conn_info : Text

-- `ClientState::default()`
abbrev pub fresh_client : ClientState
fresh_client = record { pubs = []; subs = []; conn_info = [] }

-- `ticks` is the model's own: how often the clock has been read.
pub record NtRegistry : Type 0 where
  pub topics : Assoc ℕ TopicState
  pub by_name : Assoc Text ℕ
  pub clients : Assoc ℕ ClientState
  pub topic_subscribers : Assoc ℕ (List ℕ)
  pub topic_announced : Assoc ℕ (List ℕ)
  pub freed : List ℕ
  pub next_id : ℕ
  pub client_names : List Text
  pub client_name_by_id : Assoc ℕ Text
  pub persistent_generation : ℕ
  pub ticks : ℕ

-- `NtRegistry::new()`
abbrev pub new : NtRegistry
new = record {
  topics = [];
  by_name = [];
  clients = [];
  topic_subscribers = [];
  topic_announced = [];
  freed = [];
  next_id = 0;
  client_names = [];
  client_name_by_id = [];
  persistent_generation = 0;
  ticks = 0;
}

-- What the registry is given: the float operations and the clock, whose n-th reading in
-- microseconds is `clock n`.
pub record Env : Type 0 where
  pub floats : Floats
  pub clock : ℕ → ℕ

-- `HashSet::insert`
abbrev pub set_insert : ℕ → List ℕ → List ℕ
set_insert x xs = if contains x xs then xs else xs ++ (x ∷ [])

-- `extend` of a set.
abbrev pub insert_all : List ℕ → List ℕ → List ℕ
insert_all [] set = set
insert_all (x ∷ xs) set = insert_all xs (set_insert x set)

-- One step after another, with the frames of both.
infixl 5 ◌▹◌
abbrev pub ◌▹◌ : NtRegistry × Routes → (NtRegistry → NtRegistry × Routes) → NtRegistry × Routes
p ▹ f = let (r, out) = f p.0 in (r, p.1 ++ out)

abbrev pub quietly : NtRegistry → NtRegistry × Routes
quietly r = (r, [])
