-- ===== src/Msgpack/Utf8.antt =====
-- `std::str::from_utf8`: which bytes are UTF-8, by the table of well-formed byte sequences.
use tarwyn.Base.{ℕ, Bool, true, false, ◌&&◌, [], ◌∷◌, ltb, leb, if◌then◌else◌}
use tarwyn.Base.Bytes.{Bytes}

-- What the next byte must be: `start` begins a character, `tailN` wants N continuation bytes, and
-- the others restrict the second byte of a sequence.
pub data Expect : Type 0 where
  start tail1 tail2 tail3 after_e0 after_ed after_f0 after_f4 bad : Expect

abbrev between : ℕ → ℕ → ℕ → Bool
between lo hi b = leb lo b && leb b hi

first_byte : ℕ → Expect
first_byte b =
    if ltb b 0x80
    then start
    else if between 0xc2 0xdf b
    then tail1
    else if leb b 0xe0 && leb 0xe0 b
    then after_e0
    else if leb b 0xed && leb 0xed b
    then after_ed
    else if between 0xe1 0xef b
    then tail2
    else if leb b 0xf0 && leb 0xf0 b
    then after_f0
    else if between 0xf1 0xf3 b
    then tail3
    else if leb b 0xf4 && leb 0xf4 b
    then after_f4
    else bad

unfoldable pub next_byte : Expect → ℕ → Expect
unfolding first_byte
next_byte start b = first_byte b
next_byte tail1 b = if between 0x80 0xbf b then start else bad
next_byte tail2 b = if between 0x80 0xbf b then tail1 else bad
next_byte tail3 b = if between 0x80 0xbf b then tail2 else bad
next_byte after_e0 b = if between 0xa0 0xbf b then tail1 else bad
next_byte after_ed b = if between 0x80 0x9f b then tail1 else bad
next_byte after_f0 b = if between 0x90 0xbf b then tail2 else bad
next_byte after_f4 b = if between 0x80 0x8f b then tail2 else bad
next_byte bad b = bad

is_start : Expect → Bool
is_start start = true
is_start _ = false

unfoldable pub utf8_from : Expect → Bytes → Bool
unfolding is_start next_byte
utf8_from e [] = is_start e
utf8_from e (b ∷ bs) = utf8_from (next_byte e b) bs

unfoldable pub is_utf8 : Bytes → Bool
unfolding utf8_from
is_utf8 bs = utf8_from start bs
