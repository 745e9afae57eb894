-- ===== src/Base/Equality.antt =====
-- Decidable equality of keys, as an interface with a law, and its instances.
use Prim.Native.Nat.{ℕ}
use Prim.Native.Char.{code}
use Prim.Native.String.{String}
use mathlib.Core.Path.{◌≡◌, refl}
use mathlib.Core.Logic.{◌↔◌}
use mathlib.Core.Bool.{Bool, true, false, ◌&&◌, ◌||◌}
use mathlib.Core.List.{List, [], ◌∷◌}
use native.Mathlib.Omega.{arith}
use tarwyn.Base.Tests.{nat_eqb, nat_eqb_iff}

pub record Eq {ℓ} (A : Type ℓ) : Type ℓ where
  pub eqb : A → A → Bool
  pub eqb_iff : (a b : A) → (eqb a b ≡ true) ↔ (a ≡ b)

infix 50 ◌==◌
abbrev pub ◌==◌ {ℓ} : {A : Type ℓ} ⦃e : Eq A⦄ → A → A → Bool
◌==◌ ⦃e⦄ = e.eqb

instance abbrev pub nat_eq : Eq ℕ
nat_eq = record { eqb = nat_eqb; eqb_iff = nat_eqb_iff }

-- A Rust string is the list of its UTF-8 bytes.
abbrev pub Text : Type 0
Text = List ℕ

abbrev pub text_eqb : Text → Text → Bool
text_eqb [] [] = true
text_eqb [] (y ∷ ys) = false
text_eqb (x ∷ xs) [] = false
text_eqb (x ∷ xs) (y ∷ ys) = nat_eqb x y && text_eqb xs ys

pub text_eqb→eq : (a b : Text) → text_eqb a b ≡ true → a ≡ b
text_eqb→eq [] [] h = refl
text_eqb→eq [] (y ∷ ys) h = cc
text_eqb→eq (x ∷ xs) [] h = cc
text_eqb→eq (x ∷ xs) (y ∷ ys) h = ground (arith, text_eqb→eq xs ys)

pub text_eqb_refl : (a : Text) → text_eqb a a ≡ true
text_eqb_refl [] = refl
text_eqb_refl (x ∷ xs) = ground (arith, text_eqb_refl xs)

pub eq→text_eqb : (a b : Text) → a ≡ b → text_eqb a b ≡ true
eq→text_eqb a b e = rw (e, text_eqb_refl b)

pub text_eqb_iff : (a b : Text) → (text_eqb a b ≡ true) ↔ (a ≡ b)
text_eqb_iff a b = (text_eqb→eq a b, eq→text_eqb a b)

instance abbrev pub text_eq : Eq Text
text_eq = record { eqb = text_eqb; eqb_iff = text_eqb_iff }

-- The bytes of a literal, which the program's literals are: plain ASCII.
abbrev pub utf8 : String → Text
utf8 String.[] = []
utf8 (String.◌∷◌ c s) = code c ∷ utf8 s

module _ {ℓ} {A : Type ℓ} ⦃e : Eq A⦄ where
  -- `contains`
  abbrev pub contains : A → List A → Bool
  contains a [] = false
  contains a (x ∷ xs) = x == a || contains a xs

  pub eqb_refl : (a : A) → e.eqb a a ≡ true
  eqb_refl a = (e.eqb_iff a a).1 refl
