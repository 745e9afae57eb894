-- ===== src/RingBuffer/Newest.antt =====
-- The ring buffer holds the newest items of all that were pushed.
use tarwyn.Base.{
  ℕ, zero, suc, ◌+◌, ◌-◌, ◌≤◌, ◌<◌, ◌≡◌, refl, some, List, [], ◌∷◌, ◌++◌, length, drop, ◌==◌,
  nat_eq, if◌then◌else◌, arith, append-nil, append_assoc, length-append, length-drop,
}
use tarwyn.RingBuffer.{RingBuffer, pop_back, new, push, pop, peek, push_all}

module _ {A : Type 0} where
  -- The last `c` items of a list.
  unfoldable pub newest : ℕ → List A → List A
  newest c xs = drop (length xs - c) xs

  drop_all : (n : ℕ) (xs : List A) → length xs ≤ n → drop n xs ≡ []
  drop_all zero [] h = refl
  drop_all zero (x ∷ xs) h = absurd (omega arith)
  drop_all (suc n) [] h = refl
  drop_all (suc n) (x ∷ xs) h = drop_all n xs (omega arith)

  drop-append_le : (n : ℕ) (xs ys : List A) → n ≤ length xs → drop n (xs ++ ys) ≡ drop n xs ++ ys
  drop-append_le zero xs ys h = refl
  drop-append_le (suc n) [] ys h = absurd (omega arith)
  drop-append_le (suc n) (x ∷ xs) ys h = drop-append_le n xs ys (omega arith)

  drop-drop : (n : ℕ) (xs : List A) → drop 1 (drop n xs) ≡ drop (suc n) xs
  drop-drop zero xs = refl
  drop-drop (suc n) [] = refl
  drop-drop (suc n) (x ∷ xs) = drop-drop n xs

  newest_append_one :
      (c : ℕ) (xs : List A) (x : A)
      → (if c == 0
          then newest c xs
          else (if length (newest c xs) == c then drop 1 (newest c xs) else newest c xs)
            ++ (x ∷ []))
        ≡ newest c (xs ++ (x ∷ []))
  unfolding newest
  newest_append_one c xs x = ground (
    arith,
    length-append xs (x ∷ []),
    length-drop (length xs - c) xs,
    drop_all (length xs) xs,
    drop_all (length xs + 1) (xs ++ (x ∷ [])),
    drop-drop (length xs - c) xs,
    drop-append_le (suc (length xs - c)) xs (x ∷ []),
  )

  pub items-push :
      (b : RingBuffer A) (xs : List A) (x : A)
      → b.items ≡ newest b.capacity xs
      → ((push x b).items ≡ newest b.capacity (xs ++ (x ∷ []))) × ((push x b).capacity ≡ b.capacity)
  unfolding push
  items-push b xs x e = ground (arith, newest_append_one b.capacity xs x, e)

  items-push_all :
      (xs : List A) (b : RingBuffer A) (seen : List A)
      → b.items ≡ newest b.capacity seen
      → (push_all xs b).items ≡ newest b.capacity (seen ++ xs)
  unfolding push_all
  items-push_all [] b seen e = ground (arith, e, append-nil seen)
  items-push_all (x ∷ xs) b seen e =
      let (now, same) = items-push b seen x e in
      let rest : (push_all xs (push x b)).items
          ≡ newest (push x b).capacity ((seen ++ (x ∷ [])) ++ xs) =
        items-push_all xs (push x b) (seen ++ (x ∷ [])) (cc (now, same)) in
      cc (rest, same, append_assoc seen (x ∷ []) xs)

  -- After any items have been pushed into a new buffer, it holds the newest of them in the order in
  -- which they came, as many as its capacity allows, a capacity of zero included.
  pub items-push_all-new : (c : ℕ) (xs : List A) → (push_all xs (new c)).items ≡ newest c xs
  unfolding new newest
  items-push_all-new c xs = items-push_all xs (new c) [] (ground arith)

  pop_back-append : (xs : List A) (x : A) → pop_back (xs ++ (x ∷ [])) ≡ some (x, xs)
  unfolding pop_back
  pop_back-append [] x = refl
  pop_back-append (y ∷ ys) x = rw (pop_back-append ys x) refl

  -- On a buffer with room, `pop` after `push` gives the item back and the buffer as it was.
  pub pop-push :
      (x : A) (b : RingBuffer A) → length b.items < b.capacity → pop (push x b) ≡ (some x, b)
  unfolding pop push
  pop-push x b h = ground (arith, pop_back-append b.items x)

  -- On a buffer that can hold anything, full or not, `peek` after `push` is the item pushed.
  pub peek-push : (x : A) (b : RingBuffer A) → 0 < b.capacity → peek (push x b) ≡ some x
  unfolding peek push
  peek-push x b h = ground (arith, pop_back-append b.items x, pop_back-append (drop 1 b.items) x)
