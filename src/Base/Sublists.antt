-- ===== src/Base/Sublists.antt =====
-- Lists that another list holds in order, with items left out.
use Prim.Native.Nat.{ℕ, zero, suc, ◌≤◌}
use mathlib.Core.List.{List, [], ◌∷◌, ◌++◌}
use native.Mathlib.Omega.{arith}
use tarwyn.Base.Lists.{length, drop}

-- `Keeps xs ys`: `xs` is what is left of `ys` when some items are skipped.
pub data Keeps {ℓ} {A : Type ℓ} : List A → List A → Type ℓ where
  nothing : Keeps [] []
  keep : (x : A) {xs ys : List A} → Keeps xs ys → Keeps (x ∷ xs) (x ∷ ys)
  skip : (y : A) {xs ys : List A} → Keeps xs ys → Keeps xs (y ∷ ys)

module _ {ℓ} {A : Type ℓ} where
  pub Keeps-refl : (xs : List A) → Keeps xs xs
  Keeps-refl [] = nothing
  Keeps-refl (x ∷ xs) = keep x (Keeps-refl xs)

  pub Keeps-trans : {ys zs : List A} → Keeps ys zs → {xs : List A} → Keeps xs ys → Keeps xs zs
  Keeps-trans nothing p = p
  Keeps-trans (keep _ q) (keep x p) = keep x (Keeps-trans q p)
  Keeps-trans (keep y q) (skip _ p) = skip y (Keeps-trans q p)
  Keeps-trans (skip z q) p = skip z (Keeps-trans q p)

  pub Keeps-append : {xs ys : List A} (zs : List A) → Keeps xs ys → Keeps (xs ++ zs) (ys ++ zs)
  Keeps-append zs nothing = Keeps-refl zs
  Keeps-append zs (keep x p) = keep x (Keeps-append zs p)
  Keeps-append zs (skip y p) = skip y (Keeps-append zs p)

  pub Keeps-append_skip : {xs ys : List A} (zs : List A) → Keeps xs ys → Keeps xs (ys ++ zs)
  Keeps-append_skip [] nothing = nothing
  Keeps-append_skip (z ∷ zs) nothing = skip z (Keeps-append_skip zs nothing)
  Keeps-append_skip zs (keep x p) = keep x (Keeps-append_skip zs p)
  Keeps-append_skip zs (skip y p) = skip y (Keeps-append_skip zs p)

  Keeps-drop : (n : ℕ) (xs : List A) → Keeps (drop n xs) xs
  Keeps-drop zero xs = Keeps-refl xs
  Keeps-drop (suc n) [] = nothing
  Keeps-drop (suc n) (x ∷ xs) = skip x (Keeps-drop n xs)

  pub Keeps-append_drop :
      (out : List A) (n : ℕ) (xs : List A) → Keeps (out ++ drop n xs) (out ++ xs)
  Keeps-append_drop [] n xs = Keeps-drop n xs
  Keeps-append_drop (x ∷ out) n xs = keep x (Keeps-append_drop out n xs)

  pub length-Keeps : {xs ys : List A} → Keeps xs ys → length xs ≤ length ys
  length-Keeps nothing = omega arith
  length-Keeps (keep x p) = omega (arith, length-Keeps p)
  length-Keeps (skip y p) = omega (arith, length-Keeps p)
