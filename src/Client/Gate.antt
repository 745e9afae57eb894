-- ===== src/Client/Gate.antt =====
-- client/src/listeners.rs: `BufferedListener`, a callback that holds values back until the snapshot
-- of its channel was delivered. One thread subscribes and opens it, the reader thread delivers.
mod Order
mod Ends
mod Examples
use tarwyn.Base.{Bool, true, false, Option, none, some, List, [], ◌∷◌, ◌++◌, if◌then◌else◌}

-- Where the reader thread stands in `deliver`: outside; it found the gate closed and is about to
-- take the lock; it is about to call the callback.
pub data Delivering {ℓ} (V : Type ℓ) : Type ℓ where
  idle : Delivering V
  locking : V → Delivering V
  calling : V → Delivering V

-- Where the subscribing thread stands: before `open`; at the top of its loop; with a batch to
-- replay; past `open`.
pub data Opening {ℓ} (V : Type ℓ) : Type ℓ where
  subscribing : Opening V
  looping : Opening V
  replaying : List V → Opening V
  opened : Opening V

-- `BufferedListener`, with the two threads and the values that the callback was called with.
pub record BufferedListener {ℓ} (V : Type ℓ) : Type ℓ where
  pub pending : Option (List V)
  pub open_flag : Bool
  pub delivering : Delivering V
  pub opening : Opening V
  pub calls : List V

module _ {ℓ} {V : Type ℓ} where
  unfoldable pub new_listener : BufferedListener V
  new_listener = record {
    pending = some [];
    open_flag = false;
    delivering = idle;
    opening = subscribing;
    calls = [];
  }

  -- `call`, with the snapshot if the channel has a value, after which `open` begins.
  unfoldable pub call_snapshot : Option V → BufferedListener V → BufferedListener V
  call_snapshot none g = record g { opening = looping }
  call_snapshot (some v) g = record g { calls = g.calls ++ (v ∷ []); opening = looping }

  -- `deliver` reads the flag.
  unfoldable pub arrive : V → BufferedListener V → BufferedListener V
  arrive v g = record g { delivering = (if g.open_flag then calling v else locking v) }

  -- The next step of `deliver`: under the lock, or the call.
  unfoldable pub deliver_turn : BufferedListener V → BufferedListener V
  deliver_turn g = elim g.delivering [
    | idle ↦ g
    | locking v ↦ elim g.pending [
      | some buffered ↦ record g { pending = some (buffered ++ (v ∷ [])); delivering = idle }
      | none ↦ record g { delivering = calling v }
    ]
    | calling v ↦ record g { calls = g.calls ++ (v ∷ []); delivering = idle }
  ]

  -- The next step of `open`: a round under the lock, or the call for one value of the batch.
  unfoldable pub open_turn : BufferedListener V → BufferedListener V
  open_turn g = elim g.opening [
    | subscribing ↦ g
    | looping ↦ elim g.pending [
      | none ↦ record g { opening = opened }
      | some [] ↦ record g { pending = none; open_flag = true; opening = opened }
      | some (v ∷ vs) ↦ record g { pending = some []; opening = replaying (v ∷ vs) }
    ]
    | replaying [] ↦ record g { opening = looping }
    | replaying (v ∷ vs) ↦ record g { calls = g.calls ++ (v ∷ []); opening = replaying vs }
    | opened ↦ g
  ]
