-- ===== src/Message/Value/Stream.antt =====
-- `ValueMessage::decode_all` on messages that were encoded one after another.
use tarwyn.Base.{
  ℕ, zero, suc, ◌^◌, ◌≤◌, ◌<◌, ◌≡◌, refl, some, List, [], ◌∷◌, ◌++◌, All, drop, length, arith,
  length-append, drop-append, ap, ◌∙◌,
}
use tarwyn.Base.Bytes.{Bytes}
use tarwyn.Base.Outcome.{ok}
use tarwyn.Message.Value.{ValueMessage, encode, add_message, decode_one, decode_loop, decode_all}
use tarwyn.Message.Value.Fuel.{decode_one-consumed}
use tarwyn.Message.Value.RoundTrip.{decode_one-encode}
use tarwyn.Msgpack.Wire.{as_read, IsWire}
use tarwyn.Value.{Floats}

-- A message and what it was encoded as, its fields in their types' ranges.
pub record IsFrame (F : Floats) (p : ValueMessage × Bytes) : Type 0 where
  pub topic_id : p.0.topic_id < 2 ^ 32
  pub timestamp : p.0.timestamp_micros < 2 ^ 64
  pub data_type : p.0.data_type < 2 ^ 32
  pub wire : IsWire F p.0.value
  pub encoded : encode p.0 ≡ ok p.1

-- Consecutive frames, as the writer of a connection batches them.
unfoldable pub joined : List (ValueMessage × Bytes) → Bytes
joined [] = []
joined ((m, out) ∷ ps) = out ++ joined ps

abbrev pub as_received : ValueMessage → ValueMessage
as_received m = record m { value = as_read m.value }

abbrev pub received : List (ValueMessage × Bytes) → List ValueMessage
received [] = []
received ((m, out) ∷ ps) = as_received m ∷ received ps

module _ (F : Floats) where
  decode_loop_step :
      (fuel : ℕ) (buf : Bytes) (m : ValueMessage) (n : ℕ)
      → decode_one F buf ≡ ok (m, n)
      → decode_loop F (suc fuel) buf ≡ add_message m (decode_loop F fuel (drop n buf))
  unfolding decode_loop
  decode_loop_step fuel [] m n e = absurd (omega (arith, decode_one-consumed F [] (m, n) e))
  decode_loop_step fuel (b ∷ bs) m n e = rw (e, decode_loop)

  decode_loop-joined :
      (fuel : ℕ) (ps : List (ValueMessage × Bytes))
      → All (IsFrame F) ps
      → length (joined ps) ≤ fuel
      → decode_loop F fuel (joined ps) ≡ some (ok (received ps))
  unfolding decode_loop joined add_message
  decode_loop-joined fuel [] h l = refl
  decode_loop-joined zero ((m, out) ∷ ps) (f, h) l =
      let one =
        decode_one-encode F m out (joined ps) f.topic_id f.timestamp f.data_type f.wire f.encoded in
      absurd
        (omega (arith, decode_one-consumed F (out ++ joined ps) (as_received m, length out) one))
  decode_loop-joined (suc fuel) ((m, out) ∷ ps) (f, h) l =
      let one =
        decode_one-encode F m out (joined ps) f.topic_id f.timestamp f.data_type f.wire f.encoded in
      decode_loop_step fuel (out ++ joined ps) (as_received m) (length out) one
      ∙ ap (λ rest. add_message (as_received m) (decode_loop F fuel rest))
          (drop-append out (joined ps))
      ∙ ap (add_message (as_received m)) (
          decode_loop-joined fuel ps h (
            omega (
              arith,
              length-append out (joined ps),
              decode_one-consumed F (out ++ joined ps) (as_received m, length out) one,
            )))

  decode_all_some :
      (buf : Bytes) → 1 ≤ length buf → decode_all F buf ≡ decode_loop F (length buf) buf
  unfolding decode_all
  decode_all_some [] h = absurd (omega arith)
  decode_all_some (b ∷ bs) h = refl

  -- The encodings of one or more messages whose fields are in range, joined, are read by
  -- `decode_all` as just those messages in their order, each value as `as_read` describes it.
  pub decode_all-joined :
      (p : ValueMessage × Bytes) (ps : List (ValueMessage × Bytes))
      → All (IsFrame F) (p ∷ ps)
      → decode_all F (joined (p ∷ ps)) ≡ some (ok (received (p ∷ ps)))
  unfolding joined
  decode_all-joined (m, out) ps (f, h) =
      let buf = joined ((m, out) ∷ ps) in
      let one =
        decode_one-encode F m out (joined ps) f.topic_id f.timestamp f.data_type f.wire f.encoded in
      decode_all_some buf (
        omega (
          arith,
          length-append out (joined ps),
          decode_one-consumed F buf (as_received m, length out) one,
        ))
      ∙ decode_loop-joined (length buf) ((m, out) ∷ ps) (f, h) (omega arith)
