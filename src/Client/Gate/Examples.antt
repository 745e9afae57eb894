-- ===== src/Client/Gate/Examples.antt =====
-- A listener whose snapshot was read while a value came in.
use tarwyn.Base.{ℕ, ◌≤◌, ◌≡◌, refl, true, false, none, some, [], ◌∷◌, ◌++◌, ◌⊎◌}
use tarwyn.Client.Gate.{
  looping, opened, BufferedListener, new_listener, call_snapshot, arrive, deliver_turn,
}
use tarwyn.Client.Gate.Order.{hand, held_back, Runs, begun, snapped, arrived, delivered, calls-Runs}
use tarwyn.Client.Gate.Ends.{open_turns, open_turns-ends}

abbrev held : BufferedListener ℕ
held = record new_listener { pending = some (7 ∷ []); opening = looping; calls = 5 ∷ [] }

-- The value 7 arrives while the snapshot 5 is read.
reached : Runs (5 ∷ []) (7 ∷ []) held
unfolding call_snapshot arrive deliver_turn new_listener
reached = snapped (some 5) (delivered (arrived 7 begun refl)) refl

calls-Runs_example :
    ((5 ∷ []) ++ held_back held ≡ (5 ∷ []) ++ (7 ∷ []))
    × ((held.open_flag ≡ false) ⊎ ((5 ∷ []) ++ hand held.delivering ≡ (5 ∷ []) ++ (7 ∷ [])))
calls-Runs_example = calls-Runs (5 ∷ []) (7 ∷ []) held reached

open_turns-ends_example :
    (n : ℕ) × (n ≤ 4)
    × (open_turns n held
        ≡ record held { pending = none; open_flag = true; opening = opened; calls = 5 ∷ 7 ∷ [] })
open_turns-ends_example = open_turns-ends (7 ∷ []) held refl refl
