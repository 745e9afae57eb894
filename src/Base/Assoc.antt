-- ===== src/Base/Assoc.antt =====
-- Maps as association lists: `HashMap` and `serde_json::Map`. A key stands once, where it was
-- first inserted. Laws are equations with a conditional, so they have no side condition.
use Prim.Native.Nat.{◌≤◌, ◌<◌, suc}
use mathlib.Core.Path.{◌≡◌, refl, subst}
use mathlib.Core.List.{List, [], ◌∷◌, map}
use mathlib.Core.Bool.{Bool, true}
use mathlib.Core.Option.{Option, none, some}
use native.Mathlib.Omega.{arith}
use tarwyn.Base.Tests.{if◌then◌else◌, option_map, unwrap_or, is_some, Bool-cases}
use mathlib.Core.Logic.{inl, inr}
use tarwyn.Base.Lists.{length, All, retain}
use tarwyn.Base.Equality.{Eq, ◌==◌}

abbrev pub Assoc {ℓ κ} : Type ℓ → Type κ → Type (ℓ ⊔ κ)
Assoc K V = List (K × V)

abbrev pub keys {ℓ κ} : {K : Type ℓ} {V : Type κ} → Assoc K V → List K
keys m = map (λ e. e.0) m

abbrev pub values {ℓ κ} : {K : Type ℓ} {V : Type κ} → Assoc K V → List V
values m = map (λ e. e.1) m

abbrev pub map_values {ℓ κ ι} :
    {K : Type ℓ} {V : Type κ} {W : Type ι} → (V → W) → Assoc K V → Assoc K W
map_values f [] = []
map_values f ((k, v) ∷ m) = (k, f v) ∷ map_values f m

module _ {ℓ κ} {K : Type ℓ} {V : Type κ} ⦃e : Eq K⦄ where
  unfoldable pub lookup : K → Assoc K V → Option V
  lookup k [] = none
  lookup k ((j, v) ∷ m) = if j == k then some v else lookup k m

  unfoldable pub insert : K → V → Assoc K V → Assoc K V
  insert k v [] = (k, v) ∷ []
  insert k v ((j, w) ∷ m) = if j == k then (k, v) ∷ m else (j, w) ∷ insert k v m

  unfoldable pub remove : K → Assoc K V → Assoc K V
  remove k [] = []
  remove k ((j, w) ∷ m) = if j == k then remove k m else (j, w) ∷ remove k m

  -- `get_mut` followed by a change of the value found.
  unfoldable pub modify : K → (V → V) → Assoc K V → Assoc K V
  modify k f [] = []
  modify k f ((j, w) ∷ m) = if j == k then (j, f w) ∷ modify k f m else (j, w) ∷ modify k f m

  pub lookup-insert :
      (j k : K) (v : V) (m : Assoc K V)
      → lookup j (insert k v m) ≡ (if k == j then some v else lookup j m)
  unfolding lookup insert
  lookup-insert j k v [] = refl
  lookup-insert j k v ((i, w) ∷ m) =
      ground (arith, e.eqb_iff k j, e.eqb_iff i k, e.eqb_iff i j, lookup-insert j k v m)

  pub lookup-remove :
      (j k : K) (m : Assoc K V) → lookup j (remove k m) ≡ (if k == j then none else lookup j m)
  unfolding lookup remove
  lookup-remove j k [] = ground arith
  lookup-remove j k ((i, w) ∷ m) =
      ground (arith, e.eqb_iff k j, e.eqb_iff i k, e.eqb_iff i j, lookup-remove j k m)

  pub lookup-modify :
      (j k : K) (f : V → V) (m : Assoc K V)
      → lookup j (modify k f m) ≡ (if k == j then option_map f (lookup j m) else lookup j m)
  unfolding lookup modify
  lookup-modify j k f [] = ground arith
  lookup-modify j k f ((i, w) ∷ m) =
      ground (arith, e.eqb_iff k j, e.eqb_iff i k, e.eqb_iff i j, lookup-modify j k f m)

  -- A new key lengthens the map by one.
  pub length-insert :
      (k : K) (v : V) (m : Assoc K V)
      → length (insert k v m) ≡ (if is_some (lookup k m) then length m else suc (length m))
  unfolding lookup insert
  length-insert k v [] = refl
  length-insert k v ((j, w) ∷ m) = ground (arith, length-insert k v m)

  -- What holds of every value holds after an insertion, and of what is looked up.
  pub All-insert {ι} :
      (P : V → Type ι) (k : K) (v : V) (m : Assoc K V)
      → P v
      → All (λ e. P e.1) m
      → All (λ e. P e.1) (insert k v m)
  unfolding insert
  All-insert P k v [] p ps = (p, tt)
  All-insert P k v ((j, w) ∷ m) p (q, ps) = elim (Bool-cases (e.eqb j k)) [
    | inl f ↦ rw f (p, ps)
    | inr f ↦ rw f (q, All-insert P k v m p ps)
  ]

  pub All-remove {ι} :
      (P : V → Type ι) (k : K) (m : Assoc K V) → All (λ e. P e.1) m → All (λ e. P e.1) (remove k m)
  unfolding remove
  All-remove P k [] ps = tt
  All-remove P k ((j, w) ∷ m) (q, ps) = elim (Bool-cases (e.eqb j k)) [
    | inl f ↦ rw f (All-remove P k m ps)
    | inr f ↦ rw f (q, All-remove P k m ps)
  ]

  pub All-lookup {ι} :
      (P : V → Type ι) (k : K) (m : Assoc K V) {v : V}
      → All (λ e. P e.1) m
      → lookup k m ≡ some v
      → P v
  unfolding lookup
  All-lookup P k [] ps h = absurd cc
  All-lookup P k ((j, w) ∷ m) (q, ps) h = elim (Bool-cases (e.eqb j k)) [
    | inl f ↦ subst P (ground (arith, f, h)) q
    | inr f ↦ All-lookup P k m ps (ground (arith, f, h))
  ]

  -- A value that passes the test is still found when the others are dropped.
  pub lookup-retain :
      (p : V → Bool) (k : K) (v : V) (m : Assoc K V)
      → lookup k m ≡ some v
      → p v ≡ true
      → lookup k (retain (λ e. p e.1) m) ≡ some v
  unfolding lookup
  lookup-retain p k v [] h t = absurd cc
  lookup-retain p k v ((j, w) ∷ m) h t = elim (Bool-cases (e.eqb j k)) [
    | inl f ↦
        let same : w ≡ v = ground (arith, f, h) in
        let kept : p w ≡ true = cc (same, t) in rw kept (ground (arith, f, same))
    | inr f ↦ ground (arith, f, h, lookup-retain p k v m, t)
  ]

  pub length-remove-le : (k : K) (m : Assoc K V) → length (remove k m) ≤ length m
  unfolding remove
  length-remove-le k [] = omega arith
  length-remove-le k ((i, w) ∷ m) = ground (arith, length-remove-le k m)

  -- Removing a key that is there shortens the map.
  pub length-remove-lt :
      (k : K) (v : V) (m : Assoc K V) → lookup k m ≡ some v → length (remove k m) < length m
  unfolding lookup remove
  length-remove-lt k v [] h = cc
  length-remove-lt k v ((i, w) ∷ m) h = ground (arith, length-remove-le k m, length-remove-lt k v m)

pub lookup-map_values {ℓ κ ι} :
    {K : Type ℓ} {V : Type κ} {W : Type ι} ⦃e : Eq K⦄ (j : K) (f : V → W) (m : Assoc K V)
    → lookup j (map_values f m) ≡ option_map f (lookup j m)
unfolding lookup
lookup-map_values j f [] = refl
lookup-map_values j f ((i, w) ∷ m) = ground (arith, lookup-map_values j f m)

-- `entry(k).or_default()`
abbrev pub or_default {ℓ κ} : {K : Type ℓ} {V : Type κ} ⦃e : Eq K⦄ → V → K → Assoc K V → V
or_default d k m = unwrap_or d (lookup k m)
