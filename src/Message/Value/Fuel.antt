-- ===== src/Message/Value/Fuel.antt =====
-- The loop of `ValueMessage::decode_all` ends.
use tarwyn.Base.{
  ℕ, zero, suc, ◌≤◌, ◌≡◌, refl, Option, none, some, List, [], ◌∷◌, drop, length, arith, length-drop,
  inl, inr,
}
use tarwyn.Base.Bytes.{Bytes}
use tarwyn.Base.Outcome.{ok, err, >>=-eq-ok, Result-cases}
use tarwyn.Message.Value.{
  ValueMessage, from_items, add_message, decode_one, decode_loop, decode_all,
}
use tarwyn.Msgpack.Bounds.{decode_array-consumed}
use tarwyn.Msgpack.Decode.{Read}
use tarwyn.Msgpack.One.{decode_array}
use tarwyn.Value.{Floats}

module _ (F : Floats) where
  pub decode_one-consumed :
      (buf : Bytes) (p : ValueMessage × ℕ)
      → decode_one F buf ≡ ok p
      → (1 ≤ p.1) × (p.1 ≤ length buf)
  unfolding decode_one
  decode_one-consumed buf p e =
      let (q, e1, e2) = >>=-eq-ok (decode_array F buf) _ e in
      let (m, e3, e4) = >>=-eq-ok (from_items q.0) _ e2 in
      ground (arith, decode_array-consumed F buf q e1)

  abbrev Answers : Option (Read (List ValueMessage)) → Type 0
  Answers o = (result : Read (List ValueMessage)) × (o ≡ some result)

  add_message-Answers :
      (m : ValueMessage) (o : Option (Read (List ValueMessage)))
      → Answers o
      → Answers (add_message m o)
  unfolding add_message
  add_message-Answers m none (x, e) = absurd cc
  add_message-Answers m (some (ok ms)) a = (_, refl)
  add_message-Answers m (some (err e)) a = (_, refl)

  decode_loop-Answers :
      (fuel : ℕ) (buf : Bytes) → length buf ≤ fuel → Answers (decode_loop F fuel buf)
  unfolding decode_loop
  decode_loop-Answers fuel [] h = (_, refl)
  decode_loop-Answers zero (b ∷ bs) h = absurd (omega arith)
  decode_loop-Answers (suc fuel) (b ∷ bs) h = elim (Result-cases (decode_one F (b ∷ bs))) [
    | inr (x, e) ↦ rw (e, decode_loop) (err x, refl)
    | inl (p, e) ↦
        rw (e, decode_loop)
          (add_message-Answers _ _ (
            decode_loop-Answers fuel (drop p.1 (b ∷ bs))
              (ground (arith, length-drop p.1 (b ∷ bs), decode_one-consumed (b ∷ bs) p e))))
  ]

  -- `decode_all` returns on every buffer: it never runs out of the fuel that it gives its loop.
  pub decode_all-returns :
      (buf : Bytes) → (result : Read (List ValueMessage)) × (decode_all F buf ≡ some result)
  unfolding decode_all
  decode_all-returns [] = (_, refl)
  decode_all-returns (b ∷ bs) = decode_loop-Answers (length (b ∷ bs)) (b ∷ bs) (omega arith)
