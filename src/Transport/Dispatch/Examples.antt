-- ===== src/Transport/Dispatch/Examples.antt =====
-- Frames for two clients, one of which gets two.
use tarwyn.Base.{ℕ, ◌≡◌, refl, Bool, true, List, [], ◌∷◌, ◌++◌, some, nat_eq, arith}
use tarwyn.Base.Assoc.{lookup}
use tarwyn.Registry.State.{Routes, value}
use tarwyn.Transport.{Message, new_client, deliver_all}
use tarwyn.Transport.Dispatch.{ConnectionMap, Clients, dispatch}
use tarwyn.Registry.FanOut.{frames_for}
use tarwyn.Transport.Dispatch.Grouping.{dispatch-frames_for}

abbrev log : List Message → Message → List Message × Bool
log sent m = (sent ++ (m ∷ []), true)

abbrev two : ConnectionMap
two = record { senders = (1, 10) ∷ (2, 20) ∷ []; dropped = 0 }

two_injective :
    (i j address : ℕ)
    → lookup i two.senders ≡ some address
    → lookup j two.senders ≡ some address
    → i ≡ j
unfolding lookup
two_injective i j address e f = ground (arith, nat_eq.eqb_iff 1 i, nat_eq.eqb_iff 2 i)

abbrev idle : Clients (List Message)
idle address = new_client [] 4

abbrev mixed : Routes
mixed = (1, value (7 ∷ [])) ∷ (2, value (8 ∷ [])) ∷ (1, value (9 ∷ [])) ∷ (3, value []) ∷ []

frames_for_one : frames_for 1 mixed ≡ value (7 ∷ []) ∷ value (9 ∷ []) ∷ []
unfolding frames_for
frames_for_one = refl

dispatch-frames_for_example :
    (dispatch log (λ j. []) mixed two idle).0 10
    ≡ (deliver_all log (λ j. []) (frames_for 1 mixed) (idle 10)).0
unfolding lookup
dispatch-frames_for_example =
    dispatch-frames_for log (λ j. []) two two_injective 1 10 mixed idle refl
