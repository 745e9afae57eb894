-- ===== src/Base/Masks.antt =====
-- Bit masks on one byte as arithmetic; each is a table of at most 256 entries.
use Prim.Native.Nat.{ℕ, zero, suc, ◌+◌, ◌*◌, ◌/◌, ◌%◌, ◌<◌, bit_and, bit_or}
use mathlib.Core.Path.{◌≡◌, refl, sym, ap, ap₂, ◌∙◌}
use mathlib.Core.Bool.{Bool, true, ◌&&◌}
use native.Mathlib.Omega.{arith}
use tarwyn.Base.Tests.{nat_eqb, nat_eqb_iff}

all_below : ℕ → (ℕ → Bool) → Bool
all_below zero p = true
all_below (suc n) p = p n && all_below n p

all_below→at : (n : ℕ) (p : ℕ → Bool) (x : ℕ) → all_below n p ≡ true → x < n → p x ≡ true
unfolding all_below
all_below→at zero p x h lt = absurd (omega arith)
all_below→at (suc n) p x h lt = ground (arith, all_below→at n p x)

-- Two functions that agree on a table agree below its end.
agree :
    (n : ℕ) (f g : ℕ → ℕ)
    → all_below n (λ x. nat_eqb (f x) (g x)) ≡ true
    → (x : ℕ) → x < n
    → f x ≡ g x
agree n f g table x h = (nat_eqb_iff _ _).0 (all_below→at n _ x table h)

pub or_0x90 : (x : ℕ) → x < 16 → bit_or 0x90 x ≡ x + 0x90
unfolding all_below
or_0x90 = agree 16 _ _ refl

pub or_0xa0 : (x : ℕ) → x < 32 → bit_or 0xa0 x ≡ x + 0xa0
unfolding all_below
or_0xa0 = agree 32 _ _ refl

pub and_0x0f : (x : ℕ) → x < 256 → bit_and x 0x0f ≡ x % 16
unfolding all_below
and_0x0f = agree 256 _ _ refl

pub and_0x1f : (x : ℕ) → x < 256 → bit_and x 0x1f ≡ x % 32
unfolding all_below
and_0x1f = agree 256 _ _ refl

pub and_0x03 : (x : ℕ) → x < 256 → bit_and x 0x03 ≡ x % 4
unfolding all_below
and_0x03 = agree 256 _ _ refl

pub and_0x07 : (x : ℕ) → x < 256 → bit_and x 0x07 ≡ x % 8
unfolding all_below
and_0x07 = agree 256 _ _ refl

-- Three fields of two, two and three bits, one above the other.
fields_table : (x : ℕ) → x < 128 → bit_or (bit_or (x % 4) (x / 4 % 4 * 4)) (x / 16 * 16) ≡ x
unfolding all_below
fields_table = agree 128 (λ x. bit_or (bit_or (x % 4) (x / 4 % 4 * 4)) (x / 16 * 16)) (λ x. x) refl

pub or_fields :
    (a b c : ℕ) → a < 4 → b < 4 → c < 8 → bit_or (bit_or a (b * 4)) (c * 16) ≡ a + b * 4 + c * 16
or_fields a b c ha hb hc =
    let x = a + b * 4 + c * 16 in
    let low : x % 4 ≡ a = omega arith in
    let middle : x / 4 % 4 ≡ b = omega arith in
    let high : x / 16 ≡ c = omega arith in
    let table = fields_table x (omega arith) in
    ap₂ bit_or (ap₂ bit_or (sym low) (ap (λ k. k * 4) (sym middle))) (ap (λ k. k * 16) (sym high))
    ∙ table
