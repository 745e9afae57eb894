-- ===== src/Msgpack/Bounds.antt =====
-- What `decode_array` consumes.
use tarwyn.Base.{ℕ, zero, suc, ◌≤◌, ◌≡◌, List, [], ◌∷◌, drop, length, arith, length-drop, nat_eq}
use tarwyn.Base.Bytes.{Bytes}
use tarwyn.Base.Outcome.{ok, >>=-eq-ok}
use tarwyn.Msgpack.Decode.{
  Read, split_first, take_bytes, read_be, decode_items, header_len, decode_array_with,
}
use tarwyn.Msgpack.One.{decode_array_at, decode_array}
use tarwyn.Value.{Value, Floats}

take_bytes_le :
    (n : ℕ) (buf : Bytes) (p : Bytes × Bytes) → take_bytes n buf ≡ ok p → length p.1 ≤ length buf
unfolding take_bytes
take_bytes_le n buf p e = ground (arith, length-drop n buf)

read_be_le : (n : ℕ) (buf : Bytes) (p : ℕ × Bytes) → read_be n buf ≡ ok p → length p.1 ≤ length buf
unfolding read_be
read_be_le n buf p e =
    let (q, e1, e2) = >>=-eq-ok (take_bytes n buf) _ e in ground (arith, take_bytes_le n buf q e1)

header_len_le :
    (marker : ℕ) (buf : Bytes) (p : ℕ × Bytes)
    → header_len marker buf ≡ ok p
    → length p.1 ≤ length buf
unfolding header_len
header_len_le marker buf p e = ground (arith, read_be_le 2 buf p, read_be_le 4 buf p)

decode_items_le :
    (one : Bytes → Read (Value × ℕ)) (n : ℕ) (buf : Bytes) (p : List Value × Bytes)
    → decode_items one n buf ≡ ok p
    → length p.1 ≤ length buf
unfolding decode_items
decode_items_le one zero buf p e = ground arith
decode_items_le one (suc n) buf p e =
    let (q, e1, e2) = >>=-eq-ok (one buf) _ e in
    let (s, e3, e4) = >>=-eq-ok (decode_items one n (drop q.1 buf)) _ e2 in
    ground (arith, decode_items_le one n (drop q.1 buf) s e3, length-drop q.1 buf)

decode_array_with-consumed :
    (one : Bytes → Read (Value × ℕ)) (buf : Bytes) (p : List Value × ℕ)
    → decode_array_with one buf ≡ ok p
    → (1 ≤ p.1) × (p.1 ≤ length buf)
unfolding decode_array_with split_first
decode_array_with-consumed one [] p e = cc
decode_array_with-consumed one (b ∷ bs) p e =
    let (q, e1, e2) = >>=-eq-ok (header_len b bs) _ e in
    let (s, e3, e4) = >>=-eq-ok (decode_items one q.0 q.1) _ e2 in
    ground (arith, header_len_le b bs q e1, decode_items_le one q.0 q.1 s e3)

-- An array that `decode_array` reads takes at least one byte and no more than there are.
pub decode_array-consumed :
    (F : Floats) (buf : Bytes) (p : List Value × ℕ)
    → decode_array F buf ≡ ok p
    → (1 ≤ p.1) × (p.1 ≤ length buf)
unfolding decode_array decode_array_at
decode_array-consumed F buf p e = decode_array_with-consumed _ buf p e
