-- ===== src/Pacing/Examples.antt =====
-- The predictor on a stream with a period of 20 milliseconds.
use tarwyn.Base.{ℕ, suc, ◌+◌, ◌*◌, ◌≤◌, ◌≡◌, refl, some, [], ◌∷◌, arith}
use tarwyn.Pacing.{
  new, current_margin, record_arrival, record_all, next_due, in_step, next_interval, max_gap,
}
use tarwyn.Pacing.Bounds.{next_due-record_all}
use tarwyn.Pacing.Periodic.{beat, heard, next_due-heard}

due_at : next_due (record_all (1000 ∷ 20001000 ∷ 40001000 ∷ []) (new 200000)) ≡ some 60001000
unfolding next_due record_all record_arrival new in_step next_interval
due_at = refl

next_due-record_all_example :
    (l : ℕ) × (i : ℕ) × ((record_all (1000 ∷ 20001000 ∷ 40001000 ∷ []) (new 200000)).last ≡ some l)
    × (60001000 ≡ l + i)
    × (i ≤ max_gap)
    × (current_margin (record_all (1000 ∷ 20001000 ∷ 40001000 ∷ []) (new 200000)) * 4 ≤ i)
next_due-record_all_example =
    next_due-record_all 200000 60001000 (1000 ∷ 20001000 ∷ 40001000 ∷ []) due_at

next_due-heard_example :
    (due : ℕ) × (next_due (heard 200000 1000 20000001 (suc (suc 5))) ≡ some due)
    × (due ≤ beat 1000 20000001 (suc (suc (suc 5))))
    × (beat 1000 20000001 (suc (suc (suc 5))) ≤ due + 3)
next_due-heard_example =
    next_due-heard 200000 1000 20000001 5 (omega arith) (omega arith) (omega arith) (omega arith)
