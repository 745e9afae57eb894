-- ===== src/Server/Export/Examples.antt =====
-- The document of a cache with two channels.
use tarwyn.Base.{◌≡◌, refl, true, none, [], ◌∷◌, utf8, text_eq, if◌then◌else◌, option_map}
use tarwyn.Json.{get}
use tarwyn.Kind.{Kind, int64}
use tarwyn.Base.Int.{pos}
use tarwyn.Registry.State.{starts_with}
use tarwyn.Server.Cache.{Cache, read}
use tarwyn.Server.Export.{json_value, document, hex, hex_digit}
use tarwyn.Server.Export.Members.{get-document}
use tarwyn.Value.{Floats}

abbrev plain_floats : Floats
plain_floats = record { f32_to_f64 = λ x. x; f64_to_f32 = λ x. x; int_to_f64 = λ _. 0 }

abbrev two_channels : Cache
two_channels =
    (utf8 "/arm/x", record { items = int64 (pos 3) ∷ []; capacity = 1 })
    ∷ (utf8 "/leg/x", record { items = Kind.bool true ∷ []; capacity = 1 })
    ∷ []

hex_bytes : hex (0xa0 ∷ 0x1f ∷ []) ≡ utf8 "a01f"
unfolding hex hex_digit
hex_bytes = refl

get-document_example : get (utf8 "/arm/x") (document plain_floats (utf8 "/arm") two_channels) ≡ (
    if starts_with (utf8 "/arm/x") (utf8 "/arm")
    then option_map (json_value plain_floats) (read two_channels (utf8 "/arm/x"))
    else none)
get-document_example =
    get-document plain_floats (utf8 "/arm") (utf8 "/arm/x") two_channels
      ((refl, refl), ((refl, refl), tt))
