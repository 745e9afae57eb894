-- ===== src/Message/Parse/Examples.antt =====
-- Control messages on concrete documents. The reader of text knows one text of each.
use tarwyn.Base.{
  ◌≡◌, refl, Option, none, some, List, [], ◌∷◌, Text, utf8, arith, true, ◌==◌, text_eq,
  if◌then◌else◌,
}
use tarwyn.Base.Outcome.{ok, err}
use tarwyn.Json.{Json, array, items_of, null, end, field, as_object}
use tarwyn.Message.{ControlMessage, announce, unpublish, keep_alive, to_json}
use tarwyn.Message.Parse.{not_an_object, from_value, from_json, from_json_batch}
use tarwyn.Message.Parse.RoundTrip.{from_json-to_json}
use tarwyn.Message.Parse.Batch.{Entry, message, junk, entry_documents, from_json_batch-entries}

abbrev told : ControlMessage
told =
    announce (utf8 "/speed") 3 (utf8 "double") (field (utf8 "retained") (Json.bool true) end)
      (some 7)

-- A reader that knows a text by its name.
abbrev knows : Text → Json → Text → Option Json
knows name document text = if text == name then some document else none

from_json-to_json_example : from_json (knows (utf8 "told") (to_json told)) (utf8 "told") ≡ ok told
from_json-to_json_example =
    from_json-to_json (knows (utf8 "told") (to_json told)) (utf8 "told") told
      (omega arith, omega arith) refl

abbrev frame : List Entry
frame = junk null ∷ message (unpublish 4) ∷ message keep_alive ∷ []

refused : from_value null ≡ err not_an_object
unfolding from_value as_object
refused = refl

from_json_batch-entries_example :
    from_json_batch (knows (utf8 "frame") (array (items_of (entry_documents frame)))) (utf8 "frame")
    ≡ ok (unpublish 4 ∷ keep_alive ∷ [])
from_json_batch-entries_example =
    from_json_batch-entries (knows (utf8 "frame") (array (items_of (entry_documents frame))))
      (utf8 "frame") frame ((not_an_object, refused), (omega arith, (tt, tt))) refl
