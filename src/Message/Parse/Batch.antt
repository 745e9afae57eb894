-- ===== src/Message/Parse/Batch.antt =====
-- A frame of several control messages, some of which may not parse.
use tarwyn.Base.{◌≡◌, refl, Option, some, List, [], ◌∷◌, All, Text}
use tarwyn.Base.Outcome.{ok, err}
use tarwyn.Json.{Json, array, items_of}
use tarwyn.Message.{ControlMessage}
use tarwyn.Message.Parse.{ControlMessageError, from_value, read_items, read_batch, from_json_batch}
use tarwyn.Message.Parse.RoundTrip.{IsWireMessage, document, from_value-document, read_items-ok}

-- An element of a frame: the document that `to_json` makes of a message, or one that is no message.
pub data Entry : Type 0 where
  message : ControlMessage → Entry
  junk : Json → Entry

abbrev pub entry_json : Entry → Json
entry_json (message m) = document m
entry_json (junk v) = v

-- The messages of a frame, in order.
abbrev pub messages : List Entry → List ControlMessage
messages [] = []
messages (message m ∷ es) = m ∷ messages es
messages (junk v ∷ es) = messages es

abbrev pub IsEntry : Entry → Type 0
IsEntry (message m) = IsWireMessage m
IsEntry (junk v) = (e : ControlMessageError) × (from_value v ≡ err e)

abbrev pub entry_documents : List Entry → List Json
entry_documents [] = []
entry_documents (e ∷ es) = entry_json e ∷ entry_documents es

read_items-entries :
    (es : List Entry) → All IsEntry es → read_items (items_of (entry_documents es)) ≡ messages es
unfolding read_items
read_items-entries [] h = refl
read_items-entries (message m ∷ es) (h, hs) =
    rw (read_items-ok (document m) _ m (from_value-document m h), read_items-entries es hs) refl
read_items-entries (junk v ∷ es) ((x, h), hs) = rw (h, read_items, read_items-entries es hs) refl

-- A text that stands for an array of documents, each either the one that `to_json` makes of a message
-- whose numbers are in range, or one that `from_value` refuses, is read by `from_json_batch` as those
-- messages, all of them, in order.
pub from_json_batch-entries :
    (from_str : Text → Option Json) (text : Text) (es : List Entry)
    → All IsEntry es
    → from_str text ≡ some (array (items_of (entry_documents es)))
    → from_json_batch from_str text ≡ ok (messages es)
unfolding from_json_batch read_batch
from_json_batch-entries from_str text es h e = rw (e, read_items-entries es h) refl
