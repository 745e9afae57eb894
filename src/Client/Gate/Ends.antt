-- ===== src/Client/Gate/Ends.antt =====
-- `open` ends when nothing more is delivered.
use tarwyn.Base.{
  ℕ, zero, suc, ◌+◌, ◌≤◌, Bool, true, Option, none, some, List, [], ◌∷◌, ◌++◌, ◌≡◌, length,
  append-nil, append_assoc, ap, sym, ◌∙◌, arith,
}
use tarwyn.Client.Gate.{
  Delivering, Opening, looping, replaying, opened, BufferedListener, open_turn,
}
use tarwyn.Client.Gate.Order.{listener}

module _ {ℓ} {V : Type ℓ} where
  -- Rounds of `open` with no delivery between them.
  unfoldable pub open_turns : ℕ → BufferedListener V → BufferedListener V
  open_turns zero g = g
  open_turns (suc n) g = open_turns n (open_turn g)

  replaying_ends :
      (vs : List V) (o : Bool) (x : Delivering V) (c : List V)
      → open_turns (suc (suc (length vs))) (listener (some []) o x (replaying vs) c)
        ≡ listener none true x opened (c ++ vs)
  unfolding open_turns open_turn
  replaying_ends [] o x c = ap (listener none true x opened) (sym (append-nil c))
  replaying_ends (v ∷ vs) o x c =
      replaying_ends vs o x (c ++ (v ∷ []))
      ∙ ap (listener none true x opened) (append_assoc c (v ∷ []) vs)

  listener_ends :
      (vs : List V) (p : Option (List V)) (o : Bool) (x : Delivering V) (y : Opening V) (c : List V)
      → p ≡ some vs
      → y ≡ looping
      → (n : ℕ) × (n ≤ length vs + 3)
        × (open_turns n (listener p o x y c) ≡ listener none true x opened (c ++ vs))
  unfolding open_turns open_turn
  listener_ends [] p o x y c e f = (
    1,
    omega arith,
    ap (λ r. open_turn (listener r o x y c)) e
        ∙ ap (λ r. open_turn (listener (some []) o x r c)) f
        ∙ ap (listener none true x opened) (sym (append-nil c)),
  )
  listener_ends (v ∷ vs) p o x y c e f = (
    suc (suc (suc (length (v ∷ vs)))),
    omega arith,
    ap (λ r. open_turns (suc (suc (length (v ∷ vs)))) (open_turn (listener r o x y c))) e
        ∙ ap
            (λ r.
              open_turns (suc (suc (length (v ∷ vs))))
                (open_turn (listener (some (v ∷ vs)) o x r c)))
            f
        ∙ replaying_ends (v ∷ vs) o x c,
  )

  -- Left alone, `open` ends: a listener at the top of its loop that holds some values back is open
  -- after at most three turns more than there are values, with all of them called, in order.
  pub open_turns-ends :
      (vs : List V) (g : BufferedListener V)
      → g.pending ≡ some vs
      → g.opening ≡ looping
      → (n : ℕ) × (n ≤ length vs + 3)
        × (open_turns n g ≡ record g {
          pending = none;
          open_flag = true;
          opening = opened;
          calls = g.calls ++ vs;
        })
  open_turns-ends vs g e f =
      listener_ends vs g.pending g.open_flag g.delivering g.opening g.calls e f
