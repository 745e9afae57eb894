-- ===== src/Msgpack/Arrays.antt =====
-- Reading back a typed array: its header, its elements, and the type that they are given.
use Prim.Native.Nat.{bit_or}
use tarwyn.Base.{
  ℕ, ◌-◌, ◌+◌, ◌%◌, ◌^◌, ◌≤◌, ◌≡◌, refl, ◌⊎◌, subst, List, [], ◌∷◌, ◌++◌, map, length, arith, All,
  drop-append, append_assoc, length-append, inl, inr,
}
use tarwyn.Base.Bytes.{Bytes, to_be}
use tarwyn.Base.Masks.{or_0x90, and_0x0f}
use tarwyn.Base.Outcome.{ok, ◌>>=◌, >>=-eq-ok}
use tarwyn.Msgpack.Encode.{Written, encode_array_header, encode_each, encode_typed_array}
use tarwyn.Msgpack.Decode.{Read, split_first, header_len, decode_items, decode_array_with}
use tarwyn.Msgpack.One.{decode_marker, decode_one_with, array_arm}
use tarwyn.Msgpack.Scalars.{read_be-to_be}
use tarwyn.Value.{Value, Floats}

-- The header in front of `body` announces `n` elements, and is an array's.
abbrev pub Announces : ℕ → Bytes → Bytes → Type 0
Announces n header body =
    ((split_first (header ++ body) >>= (λ p. header_len p.0 p.1)) ≡ ok (n, body))
    × ((F : Floats) (array : Bytes → Read (List Value × ℕ))
        → decode_one_with F array (header ++ body) ≡ array_arm F array (header ++ body))

fix_header : (n : ℕ) (body : Bytes) → n ≤ 0x0f → Announces n (bit_or 0x90 (n % 256) ∷ []) body
unfolding split_first header_len decode_one_with decode_marker
fix_header n body h =
    (ground (arith, or_0x90 n, and_0x0f (n + 0x90)), λ F array. ground (arith, or_0x90 n))

header_16 : (n : ℕ) (body : Bytes) → n ≤ 0xffff → Announces n (0xdc ∷ to_be 2 n) body
unfolding split_first header_len decode_one_with decode_marker
header_16 n body h = (ground (arith, read_be-to_be 2 n body), λ F array. refl)

header_32 : (n : ℕ) (body : Bytes) → n ≤ 2 ^ 32 - 1 → Announces n (0xdd ∷ to_be 4 n) body
unfolding split_first header_len decode_one_with decode_marker
header_32 n body h = (ground (arith, read_be-to_be 4 n body), λ F array. refl)

header_cases :
    (n : ℕ) (header : Bytes)
    → encode_array_header n ≡ ok header
    → (n ≤ 0x0f) × ((bit_or 0x90 (n % 256) ∷ []) ≡ header)
      ⊎ ((n ≤ 0xffff) × ((0xdc ∷ to_be 2 n) ≡ header)
          ⊎ (n ≤ 2 ^ 32 - 1) × ((0xdd ∷ to_be 4 n) ≡ header))
unfolding encode_array_header
header_cases n header e = ground arith

pub header_read :
    (n : ℕ) (header body : Bytes) → encode_array_header n ≡ ok header → Announces n header body
header_read n header body e = elim (header_cases n header e) [
  | inl (h, eq) ↦ subst (λ t. Announces n t body) eq (fix_header n body h)
  | inr (inl (h, eq)) ↦ subst (λ t. Announces n t body) eq (header_16 n body h)
  | inr (inr (h, eq)) ↦ subst (λ t. Announces n t body) eq (header_32 n body h)
]

module _ {A : Type 0} (f : A → Written) (d : A → Value) (one : Bytes → Read (Value × ℕ))
    (P : A → Type 0)
    (reads : (x : A) (out rest : Bytes)
      → P x
      → f x ≡ ok out
      → one (out ++ rest) ≡ ok (d x, length out)) where
  items_read :
      (xs : List A) (items rest : Bytes)
      → All P xs
      → encode_each f xs ≡ ok items
      → decode_items one (length xs) (items ++ rest) ≡ ok (map d xs, rest)
  unfolding encode_each decode_items
  items_read [] items rest h e = ground arith
  items_read (x ∷ xs) items rest (px, h) e =
      let (head, e1, e2) = >>=-eq-ok (f x) _ e in
      let (tail, e3, e4) = >>=-eq-ok (encode_each f xs) _ e2 in
      ground (
        arith,
        reads x head (tail ++ rest) px e1,
        append_assoc head tail rest,
        drop-append head (tail ++ rest),
        items_read xs tail rest h e3,
      )

  -- What `encode_typed_array` writes is read back as the list of what each element is read as.
  pub array_read :
      (xs : List A) (out rest : Bytes)
      → All P xs
      → encode_typed_array f xs ≡ ok out
      → decode_array_with one (out ++ rest) ≡ ok (map d xs, length out)
  unfolding encode_typed_array decode_array_with
  array_read xs out rest h e =
      let (header, e1, e2) = >>=-eq-ok (encode_array_header (length xs)) _ e in
      let (items, e3, e4) = >>=-eq-ok (encode_each f xs) _ e2 in
      let buf : Bytes = header ++ (items ++ rest) in
      let (p, s1, s2) =
        >>=-eq-ok (split_first buf) _ (header_read (length xs) header (items ++ rest) e1).0 in
      ground (
        arith,
        s1,
        s2,
        items_read xs items rest h e3,
        append_assoc header items rest,
        length-append header (items ++ rest),
        length-append items rest,
        length-append header items,
      )

  -- The bytes of a typed array lead `decode_one` to its array arm.
  pub array_leads :
      (F : Floats) (array : Bytes → Read (List Value × ℕ)) (xs : List A) (out rest : Bytes)
      → encode_typed_array f xs ≡ ok out
      → decode_one_with F array (out ++ rest) ≡ array_arm F array (out ++ rest)
  unfolding encode_typed_array
  array_leads F array xs out rest e =
      let (header, e1, e2) = >>=-eq-ok (encode_array_header (length xs)) _ e in
      let (items, e3, e4) = >>=-eq-ok (encode_each f xs) _ e2 in
      let at : out ++ rest ≡ header ++ (items ++ rest) = cc (append_assoc header items rest, e4) in
      rw at ((header_read (length xs) header (items ++ rest) e1).1 F array)
