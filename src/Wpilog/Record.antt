-- ===== src/Wpilog/Record.antt =====
-- One record of a log, written and read back.
use Prim.Native.Nat.{bit_and}
use native.Mathlib.Nat.{pow-suc}
use tarwyn.Base.{
  ℕ, zero, suc, ◌+◌, ◌-◌, ◌*◌, ◌/◌, ◌%◌, ◌^◌, ◌≤◌, ◌<◌, ◌≡◌, refl, false, some, List, [], ◌∷◌, ◌++◌,
  Text, length, take, drop, ltb, arith, take-append, drop-append, append_assoc, length-append,
  append-nil, All, ap, ◌∙◌, sym,
}
use tarwyn.Base.Bytes.{Bytes, to_le, from_le, length-to_le, from_le-to_le}
use tarwyn.Base.Masks.{or_fields, and_0x03, and_0x07}
use tarwyn.Wpilog.{more_bytes, min_len, bitfield, record_header, start_payload}
use tarwyn.Wpilog.Reader.{next, start_name, read_records}

more_bytes_enough : (fuel rest : ℕ) → rest < 256 ^ fuel → rest < 256 ^ more_bytes fuel rest
unfolding more_bytes
more_bytes_enough zero rest h = h
more_bytes_enough (suc fuel) rest h =
    let deeper = more_bytes_enough fuel (rest / 256) (omega (arith, pow-suc 256 fuel, h)) in
    ground (arith, deeper, pow-suc 256 (more_bytes fuel (rest / 256)), h)

more_bytes_le : (n fuel rest : ℕ) → rest < 256 ^ n → more_bytes fuel rest ≤ n
unfolding more_bytes
more_bytes_le n zero rest h = omega arith
more_bytes_le zero (suc fuel) rest h = ground (arith, h)
more_bytes_le (suc n) (suc fuel) rest h =
    let deeper = more_bytes_le n fuel (rest / 256) (omega (arith, pow-suc 256 n, h)) in
    ground (arith, deeper, h)

-- `min_len` gives bytes enough for a 64-bit number, and no more than a bound on it needs.
pub min_len_enough : (value : ℕ) → value < 2 ^ 64 → value < 256 ^ min_len value
unfolding min_len
min_len_enough value h =
    let deeper = more_bytes_enough 8 (value / 256) (omega arith) in
    let enough : value < 256 ^ suc (more_bytes 8 (value / 256)) =
      omega (arith, deeper, pow-suc 256 (more_bytes 8 (value / 256))) in
    enough

pub min_len_le : (n value : ℕ) → value < 256 ^ suc n → min_len value ≤ suc n
unfolding min_len
min_len_le n value h =
    omega (arith, more_bytes_le n 8 (value / 256) (omega (arith, pow-suc 256 n, h)))

min_len_pos : (value : ℕ) → 0 < min_len value
unfolding min_len
min_len_pos value = omega arith

-- The number at the head of some bytes, and what stands behind it.
pub from_le-take : (n v : ℕ) (rest : Bytes) → v < 256 ^ n → from_le (take n (to_le n v ++ rest)) ≡ v
from_le-take n v rest h =
    ap from_le
      (ap (λ k. take k (to_le n v ++ rest)) (sym (length-to_le n v)) ∙ take-append (to_le n v) rest)
    ∙ from_le-to_le n v h

pub drop-to_le : (n v : ℕ) (rest : Bytes) → drop n (to_le n v ++ rest) ≡ rest
drop-to_le n v rest =
    ap (λ k. drop k (to_le n v ++ rest)) (sym (length-to_le n v)) ∙ drop-append (to_le n v) rest

-- The bit field gives the three lengths back.
bitfield_lengths :
    (a b c : ℕ)
    → 0 < a
    → a ≤ 4
    → 0 < b
    → b ≤ 4
    → 0 < c
    → c ≤ 8
    → (bit_and (bitfield a b c) 0x03 + 1 ≡ a)
      × (bit_and (bitfield a b c / 4) 0x03 + 1 ≡ b)
      × (bit_and (bitfield a b c / 16) 0x07 + 1 ≡ c)
unfolding bitfield
bitfield_lengths a b c pa ha pb hb pc hc =
    let f = or_fields (a - 1) (b - 1) (c - 1) (omega arith) (omega arith) (omega arith) in
    let x = a - 1 + (b - 1) * 4 + (c - 1) * 16 in
    let small : x % 256 ≡ x = omega arith in
    rw (f, small)
      (
        omega (arith, and_0x03 x (omega arith)),
        omega (arith, and_0x03 (x / 4) (omega arith)),
        omega (arith, and_0x07 (x / 16) (omega arith)),
      )

take-payload : (payload rest : Bytes) → ltb (length (payload ++ rest)) (length payload) ≡ false
take-payload payload rest = ground (arith, length-append payload rest)

-- A record that is written is read back with its id, its time and its payload, and what follows it
-- is left, if the id and the payload's length are 32-bit and the time 64-bit.
pub next-record_header :
    (id timestamp : ℕ) (payload rest : Bytes)
    → id < 2 ^ 32
    → length payload < 2 ^ 32
    → timestamp < 2 ^ 64
    → next (record_header id (length payload) timestamp ++ (payload ++ rest))
      ≡ some ((id, timestamp, payload), rest)
unfolding next record_header
next-record_header id timestamp payload rest hi hp ht =
    let size = length payload in
    let (ea, eb, ec) =
      bitfield_lengths (min_len id) (min_len size) (min_len timestamp) (min_len_pos id)
        (min_len_le 3 id (omega arith)) (min_len_pos size) (min_len_le 3 size (omega arith))
        (min_len_pos timestamp) (min_len_le 7 timestamp (omega arith)) in
    let stamped = to_le (min_len timestamp) timestamp ++ (payload ++ rest) in
    let sized = to_le (min_len size) size ++ stamped in
    let whole =
      append_assoc (to_le (min_len id) id)
        (to_le (min_len size) size ++ to_le (min_len timestamp) timestamp) (payload ++ rest) in
    let inner =
      append_assoc (to_le (min_len size) size) (to_le (min_len timestamp) timestamp)
        (payload ++ rest) in
    rw
      (
        ea,
        eb,
        ec,
        whole,
        inner,
        drop-to_le (min_len id) id sized,
        drop-to_le (min_len size) size stamped,
        drop-to_le (min_len timestamp) timestamp (payload ++ rest),
        from_le-take (min_len id) id sized (min_len_enough id (omega arith)),
        from_le-take (min_len size) size stamped (min_len_enough size (omega arith)),
        from_le-take (min_len timestamp) timestamp (payload ++ rest) (min_len_enough timestamp ht),
        take-payload payload rest,
        take-append payload rest,
        drop-append payload rest,
      )
      refl

word_length : (t : Text) → length t < 2 ^ 32 → (length t % 2 ^ 32) ≡ length t
word_length t h = omega arith

-- The payload of a start record names its entry: the id, the name and the type.
pub start_name-start_payload :
    (id : ℕ) (name type_name : Text)
    → id < 2 ^ 32
    → length name < 2 ^ 32
    → length type_name < 2 ^ 32
    → start_name (drop 1 (start_payload id name type_name)) ≡ (id, name, type_name)
unfolding start_name start_payload
start_name-start_payload id name type_name hi hn ht =
    let typed = type_name ++ to_le 4 0 in
    let after_name = to_le 4 (length type_name) ++ typed in
    let named = to_le 4 (length name) ++ (name ++ after_name) in
    rw
      (
        word_length name hn,
        word_length type_name ht,
        drop-to_le 4 id named,
        from_le-take 4 id named (omega arith),
        drop-to_le 4 (length name) (name ++ after_name),
        from_le-take 4 (length name) (name ++ after_name) (omega arith),
        take-append name after_name,
        drop-append name after_name,
        drop-to_le 4 (length type_name) typed,
        from_le-take 4 (length type_name) typed (omega arith),
        take-append type_name (to_le 4 0),
      )
      refl

pub length-start_payload :
    (id : ℕ) (name type_name : Text)
    → length (start_payload id name type_name) ≡ 17 + length name + length type_name
unfolding start_payload
length-start_payload id name type_name = omega (
  arith,
  length-to_le 4 id,
  length-to_le 4 (length name % 2 ^ 32),
  length-to_le 4 (length type_name % 2 ^ 32),
  length-to_le 4 0,
  length-append (to_le 4 id) (
      to_le 4 (length name % 2 ^ 32)
      ++ (name ++ (to_le 4 (length type_name % 2 ^ 32) ++ (type_name ++ to_le 4 0)))),
  length-append (to_le 4 (length name % 2 ^ 32))
      (name ++ (to_le 4 (length type_name % 2 ^ 32) ++ (type_name ++ to_le 4 0))),
  length-append name (to_le 4 (length type_name % 2 ^ 32) ++ (type_name ++ to_le 4 0)),
  length-append (to_le 4 (length type_name % 2 ^ 32)) (type_name ++ to_le 4 0),
  length-append type_name (to_le 4 0),
)

-- A file of records.
pub record IsRecord (r : ℕ × ℕ × Bytes) : Type 0 where
  pub id_bound : r.0 < 2 ^ 32
  pub time_bound : r.1 < 2 ^ 64
  pub payload_bound : length r.2 < 2 ^ 32

unfoldable pub record_bytes : ℕ × ℕ × Bytes → Bytes
record_bytes (id, timestamp, payload) = record_header id (length payload) timestamp ++ payload

unfoldable pub file_bytes : List (ℕ × ℕ × Bytes) → Bytes
file_bytes [] = []
file_bytes (r ∷ rs) = record_bytes r ++ file_bytes rs

pub file_bytes-append :
    (rs : List (ℕ × ℕ × Bytes)) (r : ℕ × ℕ × Bytes)
    → file_bytes (rs ++ (r ∷ [])) ≡ file_bytes rs ++ record_bytes r
unfolding file_bytes
file_bytes-append [] r = append-nil (record_bytes r)
file_bytes-append (s ∷ rs) r =
    ap (◌++◌ (record_bytes s)) (file_bytes-append rs r)
    ∙ sym (append_assoc (record_bytes s) (file_bytes rs) (record_bytes r))

length-record_bytes : (r : ℕ × ℕ × Bytes) → 0 < length (record_bytes r)
unfolding record_bytes record_header
length-record_bytes (id, timestamp, payload) = omega arith

pub length-file_bytes : (rs : List (ℕ × ℕ × Bytes)) → length rs ≤ length (file_bytes rs)
unfolding file_bytes
length-file_bytes [] = omega arith
length-file_bytes (r ∷ rs) = omega (
  arith,
  length-append (record_bytes r) (file_bytes rs),
  length-record_bytes r,
  length-file_bytes rs,
)

-- Reading a file of records, with fuel for each, gives the records.
pub read_records-file_bytes :
    (rs : List (ℕ × ℕ × Bytes)) (fuel : ℕ)
    → All IsRecord rs
    → length rs ≤ fuel
    → read_records fuel (file_bytes rs) ≡ rs
unfolding read_records file_bytes record_bytes next
read_records-file_bytes [] zero h l = refl
read_records-file_bytes [] (suc fuel) h l = refl
read_records-file_bytes (r ∷ rs) zero h l = absurd (omega (arith, l))
read_records-file_bytes ((id, timestamp, payload) ∷ rs) (suc fuel) (b, h) l =
    rw
      (
        append_assoc (record_header id (length payload) timestamp) payload (file_bytes rs),
        read_records,
        next-record_header id timestamp payload (file_bytes rs) b.id_bound b.payload_bound
            b.time_bound,
        read_records-file_bytes rs fuel h (omega (arith, l)),
      )
      refl
