-- ===== src/Pacing.antt =====
-- core/src/websocket/pacing.rs: the predictor of a socket's next arrival. Times are in nanoseconds.
pub mod Bounds
pub mod Periodic
mod Examples
use tarwyn.Base.{
  ℕ, ◌+◌, ◌-◌, ◌*◌, ◌/◌, ◌%◌, ◌^◌, Bool, Option, none, some, List, [], ◌∷◌, ltb, leb, min, ◌==◌,
  nat_eq, ◌&&◌, ◌||◌, if◌then◌else◌, and_then, option_map,
}

-- `MIN_STREAK`, `MAX_GAP` and `MARGIN_FRACTION`
abbrev pub min_streak : ℕ
min_streak = 2

abbrev pub max_gap : ℕ
max_gap = 250000000

abbrev pub margin_fraction : ℕ
margin_fraction = 4

-- How reads ended.
pub record Tally : Type 0 where
  pub blind : ℕ
  pub hit : ℕ
  pub early : ℕ
  pub late : ℕ

pub record Predictor : Type 0 where
  pub last : Option ℕ
  pub interval : Option ℕ
  pub streak : ℕ
  pub margin : ℕ
  pub tally : Tally

unfoldable pub new : ℕ → Predictor
new margin = record {
  last = none;
  interval = none;
  streak = 0;
  margin = margin;
  tally = record { blind = 0; hit = 0; early = 0; late = 0 };
}

-- `Predictor::margin`
unfoldable pub current_margin : Predictor → ℕ
current_margin p = elim p.interval [
  | none ↦ p.margin
  | some interval ↦ min p.margin (interval / margin_fraction)
]

unfoldable pub in_step : Option ℕ → ℕ → Bool
in_step none gap = leb gap max_gap
in_step (some interval) gap = leb gap max_gap && leb gap (interval * 4)

unfoldable pub next_interval : Option ℕ → ℕ → ℕ
next_interval none gap = gap
next_interval (some interval) gap = interval / 4 * 3 + gap / 4

-- `Predictor::record`; the streak is a machine word.
unfoldable pub record_arrival : ℕ → Predictor → Predictor
record_arrival now p = elim p.last [
  | none ↦ record p { last = some now }
  | some last ↦
      if in_step p.interval (now - last)
      then record p {
        last = some now;
        interval = some (next_interval p.interval (now - last));
        streak = (p.streak + 1) % 2 ^ 32;
      }
      else record p { last = some now; interval = none; streak = 0 }
]

unfoldable pub next_due : Predictor → Option ℕ
next_due p =
    if p.margin == 0 || ltb p.streak min_streak
    then none
    else and_then p.last (λ last. option_map (λ interval. last + interval) p.interval)

-- One arrival after another.
unfoldable pub record_all : List ℕ → Predictor → Predictor
record_all [] p = p
record_all (now ∷ nows) p = record_all nows (record_arrival now p)
