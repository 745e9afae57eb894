-- ===== src/Pacing/Bounds.antt =====
-- How far ahead a predictor looks, and how long a reader spins.
use tarwyn.Base.{
  ℕ, ◌+◌, ◌-◌, ◌*◌, ◌≤◌, ◌≡◌, refl, true, Option, none, some, List, [], ◌∷◌, nat_eq, arith,
  Bool-cases, Option-cases, inl, inr,
}
use tarwyn.Pacing.{
  Predictor, max_gap, new, current_margin, in_step, next_interval, record_arrival, next_due,
  record_all,
}

-- The interval, where there is one, is no longer than the longest gap.
abbrev pub IsPaced : Predictor → Type 0
IsPaced p = (i : ℕ) → p.interval ≡ some i → i ≤ max_gap

next_interval-le :
    (o : Option ℕ) (gap : ℕ)
    → ((i : ℕ) → o ≡ some i → i ≤ max_gap)
    → in_step o gap ≡ true
    → next_interval o gap ≤ max_gap
unfolding next_interval in_step
next_interval-le none gap h s = ground (arith, s)
next_interval-le (some i) gap h s = ground (arith, s, h i refl)

record_arrival-IsPaced : (now : ℕ) (p : Predictor) → IsPaced p → IsPaced (record_arrival now p)
unfolding record_arrival
record_arrival-IsPaced now p h = elim (Option-cases p.last) [
  | inl f ↦ rw (record_arrival, f) h
  | inr (l, f) ↦ elim (Bool-cases (in_step p.interval (now - l))) [
    | inl s ↦
        rw (record_arrival, f, s)
          (λ i e. ground (arith, e, next_interval-le p.interval (now - l) h s))
    | inr s ↦ rw (record_arrival, f, s) (λ i e. absurd cc)
  ]
]

due_parts :
    (p : Predictor) (due : ℕ)
    → IsPaced p
    → next_due p ≡ some due
    → (l : ℕ) × (i : ℕ) × (p.last ≡ some l)
      × (due ≡ l + i)
      × (i ≤ max_gap)
      × (current_margin p * 4 ≤ i)
unfolding next_due current_margin
due_parts p due h e = elim (Option-cases p.last) [
  | inl f ↦ absurd (ground (arith, e, f))
  | inr (l, f) ↦ elim (Option-cases p.interval) [
    | inl g ↦ absurd (ground (arith, e, f, g))
    | inr (i, g) ↦ (l, i, f, ground (arith, e, f, g), h i g, rw g (ground arith))
  ]
]

record_all-IsPaced : (nows : List ℕ) (p : Predictor) → IsPaced p → IsPaced (record_all nows p)
unfolding record_all
record_all-IsPaced [] p h = h
record_all-IsPaced (now ∷ nows) p h =
    record_all-IsPaced nows (record_arrival now p) (record_arrival-IsPaced now p h)

new-IsPaced : (margin : ℕ) → IsPaced (new margin)
unfolding new
new-IsPaced margin i e = absurd cc

-- Whatever the arrivals, the next one is never predicted more than a quarter second after the last
-- one, and a reader spins for at most a quarter of the interval before it is due.
pub next_due-record_all :
    (margin due : ℕ) (nows : List ℕ)
    → next_due (record_all nows (new margin)) ≡ some due
    → (l : ℕ) × (i : ℕ) × ((record_all nows (new margin)).last ≡ some l)
      × (due ≡ l + i)
      × (i ≤ max_gap)
      × (current_margin (record_all nows (new margin)) * 4 ≤ i)
unfolding next_due
next_due-record_all margin due nows e =
    due_parts (record_all nows (new margin)) due
      (record_all-IsPaced nows (new margin) (new-IsPaced margin)) e
