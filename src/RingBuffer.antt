-- ===== src/RingBuffer.antt =====
-- core/src/utils/ring_buffer.rs: a queue of fixed capacity that drops its oldest item when full.
pub mod Newest
mod Examples
use tarwyn.Base.{
  ℕ, zero, suc, Bool, true, false, Option, none, some, List, [], ◌∷◌, ◌++◌, length, drop, ◌==◌,
  nat_eq, if◌then◌else◌, option_map,
}

-- The items stand oldest first.
pub record RingBuffer {ℓ} (A : Type ℓ) : Type ℓ where
  pub items : List A
  pub capacity : ℕ

-- `VecDeque::pop_back`: the last item, and those before it.
unfoldable pub pop_back {ℓ} : {A : Type ℓ} → List A → Option (A × List A)
pop_back [] = none
pop_back (x ∷ xs) = elim (pop_back xs) [ none ↦ some (x, []) | some (y, ys) ↦ some (y, x ∷ ys) ]

module _ {ℓ} {A : Type ℓ} where
  unfoldable pub new : ℕ → RingBuffer A
  new capacity = record { items = []; capacity = capacity }

  unfoldable pub push : A → RingBuffer A → RingBuffer A
  push item b = if b.capacity == 0 then b else record b {
    items = (if length b.items == b.capacity then drop 1 b.items else b.items) ++ (item ∷ []);
  }

  unfoldable pub pop : RingBuffer A → Option A × RingBuffer A
  unfolding pop_back
  pop b = elim (pop_back b.items) [
    | none ↦ (none, b)
    | some (x, rest) ↦ (some x, record b { items = rest })
  ]

  unfoldable pub peek : RingBuffer A → Option A
  unfolding pop_back
  peek b = option_map (λ p. p.0) (pop_back b.items)

  unfoldable pub clear : RingBuffer A → RingBuffer A
  clear b = record b { items = [] }

  -- One `push` after another.
  unfoldable pub push_all : List A → RingBuffer A → RingBuffer A
  unfolding push
  push_all [] b = b
  push_all (x ∷ xs) b = push_all xs (push x b)
