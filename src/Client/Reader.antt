-- ===== src/Client/Reader.antt =====
-- client/src/reader.rs: what a frame from the server does to a client's listeners. A listener is a
-- value of any type; what it does when it is called is its own affair. prost is a parameter.
mod Calls
mod Replies
mod Examples
use tarwyn.Base.{
  ℕ, ◌+◌, ◌%◌, ◌^◌, Bool, true, false, Option, none, some, List, [], ◌∷◌, ◌++◌, map, Text, utf8,
  ◌==◌, text_eq, nat_eq, ◌||◌, if◌then◌else◌, unwrap_or,
}
use tarwyn.Base.Assoc.{Assoc, lookup, insert}
use tarwyn.Base.Bytes.{Bytes}
use tarwyn.Base.Outcome.{ok}
use tarwyn.DataType.{data_type_from_string}
use tarwyn.Json.{Json}
use tarwyn.Message.{ControlMessage, announce}
use tarwyn.Message.Parse.{Parsed, from_json}
use tarwyn.Message.Value.{ValueMessage, decode_all}
use tarwyn.Value.{Value, Floats, string_array, widened}
use tarwyn.Value.Conform.{conformed}

-- `LOG_TOPIC`
abbrev pub log_topic : Text
log_topic = utf8 "TARWYN_INTERNAL_LOG"

pub record Topic : Type 0 where
  pub name : Text
  pub data_type : ℕ

pub record Listeners (L : Type 0) : Type 0 where
  pub data_listeners : Assoc Text (List L)
  pub log_listeners : List L
  pub topic_names : Assoc ℕ Topic

-- The call of a listener: with a value, or with a line of the server's log.
pub data Call (L : Type 0) : Type 0 where
  value_call : L → Value → Call L
  log_call : L → Text → Call L

-- `PendingRequest`; its channel takes one reply, which `Answer` is.
pub record Answer : Type 0 where
  pub id : ℕ
  pub reply : Bytes

module _ {L : Type 0} where
  abbrev listeners_on : Text → Listeners L → List L
  listeners_on name t = unwrap_or [] (lookup name t.data_listeners)

  -- Each line goes to every log listener before the next.
  unfoldable pub log_calls : List Text → List L → List (Call L)
  log_calls [] ls = []
  log_calls (line ∷ lines) ls = map (λ l. log_call l line) ls ++ log_calls lines ls

  unfoldable pub topic_calls : Text → Value → Listeners L → List (Call L)
  unfolding log_calls
  topic_calls name v t =
      let values = map (λ l. value_call l (widened v)) (listeners_on name t) in
      let lines : List (Call L) = elim v [
        | string_array lines ↦ log_calls lines t.log_listeners
        | _ ↦ []
      ] in
      if name == log_topic then lines else values

  unfoldable pub fan_out_value : Floats → ValueMessage → Listeners L → List (Call L)
  fan_out_value F vm t = elim (lookup vm.topic_id t.topic_names) [
    | none ↦ []
    | some topic ↦ topic_calls topic.name (conformed F vm.value topic.data_type) t
  ]

  unfoldable pub fan_out_all : Floats → List ValueMessage → Listeners L → List (Call L)
  fan_out_all F [] t = []
  fan_out_all F (vm ∷ vms) t = fan_out_value F vm t ++ fan_out_all F vms t

  unfoldable pub handle_text : (Text → Option Json) → Text → Listeners L → Listeners L
  handle_text from_str text t = elim (from_json from_str text) [
    | ok (announce name id data_type properties pubuid) ↦ record t {
      topic_names =
          insert id (record { name = name; data_type = data_type_from_string data_type })
            t.topic_names;
    }
    | _ ↦ t
  ]

-- The reply with this id and these bytes against the request that waits: what still waits, and what
-- is handed over.
unfoldable pub answer : ℕ → Bytes → Option ℕ → Option ℕ × Option Answer
answer id payload none = (none, none)
answer id payload (some waiting) =
    if id == 0 || id == waiting
    then (none, some (record { id = waiting; reply = payload }))
    else (some waiting, none)

-- `reply_id` is the id that prost reads of a reply.
unfoldable pub handle_reply : (Bytes → Option ℕ) → Bytes → Option ℕ → Option ℕ × Option Answer
handle_reply reply_id payload pending = elim (reply_id payload) [
  | none ↦ (pending, none)
  | some id ↦ answer id payload pending
]

-- The calls, the request that still waits, and the reply handed over.
unfoldable pub handle_binary :
    {L : Type 0}
    → Floats
    → (Bytes → Option ℕ)
    → Bytes
    → Listeners L
    → Option ℕ
    → List (Call L) × (Option ℕ × Option Answer)
handle_binary F reply_id payload t pending = elim (decode_all F payload) [
  | some (ok messages) ↦ (fan_out_all F messages t, (pending, none))
  | _ ↦ ([], handle_reply reply_id payload pending)
]
