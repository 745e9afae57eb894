-- ===== src/Server/Export/Members.antt =====
-- The exported document against the reads of the cache.
use tarwyn.Base.{
  ◌≡◌, refl, none, some, [], ◌∷◌, Text, ◌==◌, text_eq, text_eqb_iff, if◌then◌else◌, option_map,
  arith, Option-cases, inl, inr,
}
use tarwyn.Base.Assoc.{lookup}
use tarwyn.Json.{Json, Fields, end, field, get, put}
use tarwyn.Registry.State.{starts_with}
use tarwyn.RingBuffer.{peek}
use tarwyn.Server.Cache.{Cache, read}
use tarwyn.Server.Cache.Values.{HoldOne, peek-HoldsOne}
use tarwyn.Server.Export.{json_value, document}
use tarwyn.Value.{Floats}

get-put :
    (j k : Text) (v : Json) (m : Fields) → get j (put k v m) ≡ (if k == j then some v else get j m)
unfolding get put
get-put j k v end = refl
get-put j k v (field i w m) =
    ground (arith, text_eqb_iff k j, text_eqb_iff i k, text_eqb_iff i j, get-put j k v m)

module _ (F : Floats) where
  -- The document under a prefix has, for a channel whose name starts with it, the value that a read
  -- answers, as JSON, and nothing for any other name.
  pub get-document :
      (prefix name : Text) (cached : Cache)
      → HoldOne cached
      → get name (document F prefix cached)
        ≡ (if starts_with name prefix then option_map (json_value F) (read cached name) else none)
  unfolding document read lookup get
  get-document prefix name [] h = ground arith
  get-document prefix name ((n, ring) ∷ rest) (one, h) = elim (Option-cases (peek ring)) [
    | inl e ↦ absurd (ground (arith, peek-HoldsOne ring one, e))
    | inr (k, e) ↦
        rw (e, document)
          (ground (
            arith,
            e,
            text_eqb_iff n name,
            get-put name n (json_value F k) (document F prefix rest),
            get-document prefix name rest h,
          ))
  ]
