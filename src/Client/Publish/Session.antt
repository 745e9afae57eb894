-- ===== src/Client/Publish/Session.antt =====
-- What a client would replay on its next connection is what it has published and subscribed to.
use tarwyn.Base.{
  Bool, ℕ, true, Option, none, some, List, [], ◌∷◌, Text, utf8, text_eq, nat_eq, is_some,
  Bool-cases, inl, inr,
}
use tarwyn.Base.Assoc.{Assoc, lookup, insert, remove}
use tarwyn.Base.Bytes.{Bytes}
use tarwyn.Client.Publish.{
  Client, new_client, ensure_pubuid_typed, send_message, publish_typed, schema_channel, send_schema,
  send_schemas, send_struct, subscribe_channel, unsubscribe_id,
}
use tarwyn.Client.Publish.Known.{
  Known, remember_subscription, forget_subscription, remember_schema, number_channel-Known,
  new-Known,
}
use tarwyn.Client.Wire.{Wire}
use tarwyn.Json.{Json, Fields, end, put}
use tarwyn.Kind.{Prost}
use tarwyn.Value.{Value, bytes}
use tarwyn.Wpilog.Queue.{Logger}

module _ (print : Json → Text) {S W : Type 0} (send : S → Bytes → Option S) where
  -- The states of a client, and the channel of each subscription that has not ended. The reader
  -- thread may change the connection, the queue and the count of what was dropped in any way.
  pub data Reach : Assoc ℕ Text → Client S W → Type 0 where
    connected : (w : Wire S) → Reach [] (new_client w)
    sends :
        (P : Prost) (channel : Text) (v : Value) (now : ℕ) {subs : Assoc ℕ Text} {c : Client S W}
        → Reach subs c
        → Reach subs (send_message print send P channel v now c)
    sends_struct :
        (channel type_name : Text) (schemas : List (Text × Bytes)) (packed : Bytes)
        {subs : Assoc ℕ Text} {c : Client S W}
        → Reach subs c
        → Reach subs (send_struct print send channel type_name schemas packed c)
    subscribes :
        (channel : Text) {subs : Assoc ℕ Text} {c : Client S W}
        → Reach subs c
        → Reach (insert c.next_subuid channel subs) (subscribe_channel print send channel c).0
    unsubscribes :
        (captured : Bool) (subuid : ℕ) {subs : Assoc ℕ Text} {c : Client S W}
        → Reach subs c
        → Reach (remove subuid subs) (unsubscribe_id print send captured subuid c)
    elsewhere :
        (w : Wire S) (dropped : ℕ) (logger : Option (Logger W)) {subs : Assoc ℕ Text}
        {c : Client S W}
        → Reach subs c
        → Reach subs (record c { wire = w; dropped = dropped; logger = logger })

  publish_typed-Known :
      (channel : Text) (v : Value) (declared : Option Text) (properties : Fields)
      (subs : Assoc ℕ Text) (c : Client S W)
      → Known print subs c.book
      → Known print subs (publish_typed print send channel v declared properties c).0.book
  unfolding publish_typed ensure_pubuid_typed
  publish_typed-Known channel v declared properties subs c h =
      number_channel-Known print channel v declared properties subs c.book h

  send_schema-Known :
      (name : Text) (schema : Bytes) (subs : Assoc ℕ Text) (c : Client S W)
      → Known print subs c.book
      → Known print subs (send_schema print send name schema c).book
  unfolding send_schema
  send_schema-Known name schema subs c h =
      let channel = schema_channel name in
      let retained = put (utf8 "retained") (Json.bool true) end in
      let declared : Option Text = some (utf8 "structschema") in
      elim (Bool-cases (is_some (lookup channel c.book.pubuids))) [
        | inl e ↦ rw (e, send_schema) h
        | inr e ↦
            rw (e, send_schema)
              (remember_schema print channel
                (publish_typed print send channel (bytes schema) declared retained c).1 subs
                (publish_typed print send channel (bytes schema) declared retained c).0.book
                (publish_typed-Known channel (bytes schema) declared retained subs c h))
      ]

  send_schemas-Known :
      (schemas : List (Text × Bytes)) (subs : Assoc ℕ Text) (c : Client S W)
      → Known print subs c.book
      → Known print subs (send_schemas print send schemas c).book
  unfolding send_schemas
  send_schemas-Known [] subs c h = h
  send_schemas-Known ((name, schema) ∷ rest) subs c h =
      send_schemas-Known rest subs (send_schema print send name schema c)
        (send_schema-Known name schema subs c h)

  -- Whatever a client sends, subscribes to and unsubscribes from, and whatever the reader thread does
  -- to its connection: each channel has either neither an id nor a frame to replay, or both, and the
  -- frame publishes it under that id; the subscriptions to replay are just those that have not ended,
  -- for their channels; and no two of up to 2^32 channels share an id.
  pub Reach-Known : {subs : Assoc ℕ Text} {c : Client S W} → Reach subs c → Known print subs c.book
  unfolding send_message ensure_pubuid_typed send_struct subscribe_channel unsubscribe_id new_client
  Reach-Known (connected w) = new-Known print
  Reach-Known (sends P channel v now {subs = subs} {c = c} r) =
      number_channel-Known print channel v none end subs c.book (Reach-Known r)
  Reach-Known (sends_struct channel type_name schemas packed {subs = subs} {c = c} r) =
      publish_typed-Known channel (bytes packed) (some type_name) end subs
        (send_schemas print send schemas c) (send_schemas-Known schemas subs c (Reach-Known r))
  Reach-Known (subscribes channel {subs = subs} {c = c} r) =
      remember_subscription print c.next_subuid channel subs c.book (Reach-Known r)
  Reach-Known (unsubscribes captured subuid {subs = subs} {c = c} r) =
      forget_subscription print subuid subs c.book (Reach-Known r)
  Reach-Known (elsewhere w dropped logger r) = Reach-Known r
