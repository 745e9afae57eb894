-- ===== src/Registry/Invariant.antt =====
-- The invariant of the topic table: names and ids lead to one another, and a free id is no topic's.
pub mod Ids
pub mod Steps
pub mod Parts
pub mod Handlers
pub mod Reach
use tarwyn.Base.{
  ℕ, ◌<◌, ◌≡◌, Bool, true, false, Option, none, some, List, [], ◌∷◌, Text, contains, nat_eq,
  text_eq,
}
use tarwyn.Base.Assoc.{Assoc, lookup}
use tarwyn.Registry.State.{NtRegistry, TopicState}

-- No number stands twice.
abbrev pub Distinct : List ℕ → Type 0
Distinct [] = Unit
Distinct (x ∷ xs) = (contains x xs ≡ false) × Distinct xs

-- `named` and `listed`: the name table and the topic table are inverse to one another.
-- `below`, `free_below`: every id given out is below the next new one. `free_dead`: an id that can be
-- given out again belongs to no topic.
pub record Catalog (topics : Assoc ℕ TopicState) (by_name : Assoc Text ℕ) (freed : List ℕ)
    (next_id : ℕ) : Type 0 where
  pub named :
      (n : Text) (id : ℕ)
      → lookup n by_name ≡ some id
      → (t : TopicState) × (lookup id topics ≡ some t) × (t.name ≡ n)
  pub listed :
      (id : ℕ) (t : TopicState) → lookup id topics ≡ some t → lookup t.name by_name ≡ some id
  pub below : (id : ℕ) (t : TopicState) → lookup id topics ≡ some t → id < next_id
  pub free_below : (id : ℕ) → contains id freed ≡ true → id < next_id
  pub free_dead : (id : ℕ) → contains id freed ≡ true → lookup id topics ≡ none
  pub free_once : Distinct freed

pub record IsValid (r : NtRegistry) : Type 0 where
  pub catalog : Catalog r.topics r.by_name r.freed r.next_id
  pub open catalog use *
