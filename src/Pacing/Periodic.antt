-- ===== src/Pacing/Periodic.antt =====
-- A periodic stream is predicted.
use tarwyn.Base.{
  ℕ, zero, suc, ◌+◌, ◌-◌, ◌*◌, ◌/◌, ◌%◌, ◌^◌, ◌≤◌, ◌<◌, ◌≡◌, refl, true, false, Option, none, some,
  ltb, ◌==◌, nat_eq, arith, ◌⊎◌, inl, inr,
}
use tarwyn.Pacing.{
  Predictor, max_gap, min_streak, new, in_step, next_interval, record_arrival, next_due,
}

-- The arrivals of a stream: the first, and each a period after the one before.
unfoldable pub beat : ℕ → ℕ → ℕ → ℕ
beat start period zero = start
beat start period (suc n) = beat start period n + period

-- The predictor after the first arrival and `n` more.
unfoldable pub heard : ℕ → ℕ → ℕ → ℕ → Predictor
heard margin start period zero = record_arrival start (new margin)
heard margin start period (suc n) =
    record_arrival (beat start period (suc n)) (heard margin start period n)

beat_next : (start period n : ℕ) → beat start period (suc n) ≡ beat start period n + period
unfolding beat
beat_next start period n = refl

-- The interval of a periodic stream: none at first, then the period less at most the rounding.
abbrev IsNear : ℕ → Option ℕ → Type 0
IsNear period o = (o ≡ none) ⊎ ((i : ℕ) × (o ≡ some i) × (i ≤ period) × (period / 4 * 4 ≤ i))

record IsHeard (margin start period n : ℕ) (p : Predictor) : Type 0 where
  last : p.last ≡ some (beat start period n)
  streak : p.streak ≡ n
  margin_kept : p.margin ≡ margin
  near : IsNear period p.interval
  counted : (0 < n) → (i : ℕ) × (p.interval ≡ some i) × (i ≤ period) × (period / 4 * 4 ≤ i)

near_step :
    (period : ℕ) (o : Option ℕ)
    → 4 ≤ period
    → period ≤ max_gap
    → IsNear period o
    → (in_step o period ≡ true)
      × (next_interval o period ≤ period)
      × (period / 4 * 4 ≤ next_interval o period)
unfolding in_step next_interval
near_step period o low high (inl f) = rw f (ground arith, omega arith, omega arith)
near_step period o low high (inr (i, f, a, b)) = rw f (ground arith, omega arith, omega arith)

IsHeard-step :
    (margin start period n : ℕ) (p : Predictor)
    → 4 ≤ period
    → period ≤ max_gap
    → n + 1 < 2 ^ 32
    → IsHeard margin start period n p
    → IsHeard margin start period (suc n) (record_arrival (beat start period n + period) p)
unfolding record_arrival beat
IsHeard-step margin start period n p low high small h =
    let (s, a, b) = near_step period p.interval low high h.near in
    let gap : beat start period n + period - beat start period n ≡ period = omega arith in
    let counts : (p.streak + 1) % 2 ^ 32 ≡ suc n = omega (arith, h.streak) in
    rw (record_arrival, h.last, gap, s)
      (record {
        last = refl;
        streak = counts;
        margin_kept = h.margin_kept;
        near = inr (next_interval p.interval period, refl, a, b);
        counted = λ _. (next_interval p.interval period, refl, a, b);
      })

heard-IsHeard :
    (margin start period n : ℕ)
    → 4 ≤ period
    → period ≤ max_gap
    → n < 2 ^ 32
    → IsHeard margin start period n (heard margin start period n)
unfolding heard record_arrival new beat
heard-IsHeard margin start period zero low high small = record {
  last = refl;
  streak = refl;
  margin_kept = refl;
  near = inl refl;
  counted = λ h. absurd (omega (arith, h));
}
heard-IsHeard margin start period (suc n) low high small =
    IsHeard-step margin start period n (heard margin start period n) low high (omega arith)
      (heard-IsHeard margin start period n low high (omega arith))

-- A stream with a period from 4 nanoseconds to a quarter second is predicted from its third arrival
-- on, for 2 ^ 32 arrivals at least, if the margin is not zero: each time the prediction is the
-- next arrival or at most 3 nanoseconds before it.
pub next_due-heard :
    (margin start period n : ℕ)
    → 0 < margin
    → 4 ≤ period
    → period ≤ max_gap
    → n + 2 < 2 ^ 32
    → (due : ℕ) × (next_due (heard margin start period (suc (suc n))) ≡ some due)
      × (due ≤ beat start period (suc (suc (suc n))))
      × (beat start period (suc (suc (suc n))) ≤ due + 3)
unfolding next_due
next_due-heard margin start period n on low high small =
    let h = heard-IsHeard margin start period (suc (suc n)) low high (omega arith) in
    let (i, e, a, b) = h.counted (omega arith) in
    let awake : (margin == 0) ≡ false = ground (arith, on) in
    let streaking : ltb (suc (suc n)) min_streak ≡ false = ground arith in
    (
      beat start period (suc (suc n)) + i,
      rw (h.margin_kept, h.streak, h.last, e, awake, streaking) refl,
      omega (arith, a, beat_next start period (suc (suc n))),
      omega (arith, b, beat_next start period (suc (suc n))),
    )
