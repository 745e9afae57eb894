-- ===== src/RingBuffer/Examples.antt =====
-- The ring buffer on concrete items.
use tarwyn.Base.{ℕ, ◌≡◌, refl, [], ◌∷◌}
use tarwyn.RingBuffer.{new, push, push_all}

kept_two : (push_all {A = ℕ} (1 ∷ 2 ∷ 3 ∷ []) (new 2)).items ≡ 2 ∷ 3 ∷ []
unfolding push_all new push
kept_two = refl
