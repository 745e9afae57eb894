-- ===== src/Registry/Invariant/Ids.antt =====
-- The ids that `alloc_id` hands out.
use tarwyn.Base.{
  ℕ, ◌≤◌, ◌<◌, ◌≡◌, refl, true, false, ◌||◌, none, some, List, [], ◌∷◌, ◌++◌, nat_eq, contains,
  arith, inl, inr, Option-cases, Bool-cases,
}
use tarwyn.Base.Assoc.{lookup}
use tarwyn.Registry.Core.{lowest, remove_first, alloc_id}
use tarwyn.Registry.Invariant.{Distinct, IsValid}
use tarwyn.Registry.State.{NtRegistry}

contains-lowest : (xs : List ℕ) (y : ℕ) → lowest xs ≡ some y → contains y xs ≡ true
unfolding lowest
contains-lowest [] y e = cc
contains-lowest (x ∷ xs) y e = ground (arith, contains-lowest xs y)

not_free-lowest : (xs : List ℕ) (y : ℕ) → lowest xs ≡ none → contains y xs ≡ false
unfolding lowest
not_free-lowest [] y h = refl
not_free-lowest (x ∷ xs) y h = ground arith

lowest_le : (xs : List ℕ) (y z : ℕ) → lowest xs ≡ some y → contains z xs ≡ true → y ≤ z
unfolding lowest
lowest_le [] y z e h = cc
lowest_le (x ∷ xs) y z e h = elim (Option-cases (lowest xs)) [
  | inl n ↦ ground (arith, n, not_free-lowest xs z)
  | inr (w, s) ↦ ground (arith, s, lowest_le xs w z s)
]

contains-remove_first :
    (x y : ℕ) (xs : List ℕ) → contains x (remove_first y xs) ≡ true → contains x xs ≡ true
unfolding remove_first
contains-remove_first x y [] h = h
contains-remove_first x y (z ∷ zs) h = ground (arith, contains-remove_first x y zs)

not_contains-remove_first :
    (x : ℕ) (xs : List ℕ) → Distinct xs → contains x (remove_first x xs) ≡ false
unfolding remove_first
not_contains-remove_first x [] d = refl
not_contains-remove_first x (z ∷ zs) d = ground (arith, not_contains-remove_first x zs)

Distinct-remove_first : (x : ℕ) (xs : List ℕ) → Distinct xs → Distinct (remove_first x xs)
unfolding remove_first
Distinct-remove_first x [] d = tt
Distinct-remove_first x (z ∷ zs) d =
    ground (arith, Distinct-remove_first x zs, contains-remove_first z x zs)

pub contains-append :
    (x : ℕ) (xs ys : List ℕ) → contains x (xs ++ ys) ≡ (contains x xs || contains x ys)
contains-append x [] ys = refl
contains-append x (z ∷ zs) ys = ground (arith, contains-append x zs ys)

pub Distinct-append_one :
    (x : ℕ) (xs : List ℕ) → contains x xs ≡ false → Distinct xs → Distinct (xs ++ (x ∷ []))
Distinct-append_one x [] h d = (refl, tt)
Distinct-append_one x (z ∷ zs) h d =
    ground (arith, Distinct-append_one x zs, contains-append z zs (x ∷ []))

-- What `alloc_id` promises: an id that is no topic's, below the next new one, no longer free and no
-- greater than any id that was free; no id becomes free, and the topics stay.
pub record Allocates (r : NtRegistry) (id : ℕ) (r' : NtRegistry) : Type 0 where
  pub topics : r'.topics ≡ r.topics
  pub by_name : r'.by_name ≡ r.by_name
  pub dead : lookup id r.topics ≡ none
  pub in_range : id < r'.next_id
  pub grows : r.next_id ≤ r'.next_id
  pub taken : contains id r'.freed ≡ false
  pub least : (x : ℕ) → contains x r.freed ≡ true → id ≤ x
  pub free : (x : ℕ) → contains x r'.freed ≡ true → contains x r.freed ≡ true
  pub once : Distinct r'.freed

lookup_above : (r : NtRegistry) → IsValid r → (id : ℕ) → r.next_id ≤ id → lookup id r.topics ≡ none
lookup_above r v id h = elim (Option-cases (lookup id r.topics)) [
  | inl e ↦ e
  | inr (t, e) ↦ absurd (omega (arith, v.below id t e))
]

not_free_above :
    (r : NtRegistry) → IsValid r → (id : ℕ) → r.next_id ≤ id → contains id r.freed ≡ false
not_free_above r v id h = elim (Bool-cases (contains id r.freed)) [
  | inl e ↦ absurd (omega (arith, v.free_below id e))
  | inr e ↦ e
]

-- On a valid registry `alloc_id` hands out an id that no topic has and that is no greater than any
-- free id. The id is below the next new one and no longer free afterwards, no id becomes free, no
-- free id stands twice, and the topics and their names stay.
pub alloc_id-Allocates : (r : NtRegistry) → IsValid r → Allocates r (alloc_id r).0 (alloc_id r).1
unfolding alloc_id
alloc_id-Allocates r v = elim (Option-cases (lowest r.freed)) [
  | inl e ↦
      rw (e, alloc_id)
        (record {
          topics = refl;
          by_name = refl;
          dead = lookup_above r v r.next_id (omega arith);
          in_range = omega arith;
          grows = omega arith;
          taken = not_free_above r v r.next_id (omega arith);
          least = λ x h. ground (arith, not_free-lowest r.freed x e);
          free = λ x h. h;
          once = v.free_once;
        })
  | inr (id, e) ↦
      rw (e, alloc_id)
        (record {
          topics = refl;
          by_name = refl;
          dead = v.free_dead id (contains-lowest r.freed id e);
          in_range = v.free_below id (contains-lowest r.freed id e);
          grows = omega arith;
          taken = not_contains-remove_first id r.freed v.free_once;
          least = λ x h. lowest_le r.freed id x e h;
          free = λ x h. contains-remove_first x id r.freed h;
          once = Distinct-remove_first id r.freed v.free_once;
        })
]
