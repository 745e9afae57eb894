-- ===== src/Client/Gate/Order.antt =====
-- A subscription misses nothing and keeps the order, however the two threads interleave.
use tarwyn.Base.{
  subst, Bool, true, false, Option, none, some, List, [], ◌∷◌, ◌++◌, ◌≡◌, refl, not, is_some, ◌⊎◌,
  inl, inr, append-nil, append_assoc, ap, sym, ◌∙◌, Bool-cases, arith,
}
use tarwyn.Client.Gate.{
  Delivering, idle, locking, calling, Opening, subscribing, looping, replaying, opened,
  BufferedListener, new_listener, call_snapshot, arrive, deliver_turn, open_turn,
}

module _ {ℓ} {V : Type ℓ} where
  abbrev pub hand : Delivering V → List V
  hand idle = []
  hand (locking v) = v ∷ []
  hand (calling v) = v ∷ []

  abbrev pub batch : Opening V → List V
  batch (replaying vs) = vs
  batch _ = []

  abbrev pub buffer : Option (List V) → List V
  buffer none = []
  buffer (some vs) = vs

  abbrev pub snapshot_calls : Option V → List V
  snapshot_calls none = []
  snapshot_calls (some v) = v ∷ []

  abbrev is_opened : Opening V → Bool
  is_opened opened = true
  is_opened _ = false

  abbrev is_calling : Delivering V → Bool
  is_calling (calling _) = true
  is_calling _ = false

  -- The values that were taken in and not yet passed on.
  abbrev pub held_back : BufferedListener V → List V
  held_back g = batch g.opening ++ (buffer g.pending ++ hand g.delivering)

  -- What threads can make of a listener: the snapshot that was called, the values delivered, and
  -- the state.
  pub data Runs : List V → List V → BufferedListener V → Type ℓ where
    begun : Runs [] [] new_listener
    snapped :
        (o : Option V) {d : List V} {g : BufferedListener V}
        → Runs [] d g
        → g.opening ≡ subscribing
        → Runs (snapshot_calls o) d (call_snapshot o g)
    arrived :
        (v : V) {s d : List V} {g : BufferedListener V}
        → Runs s d g
        → g.delivering ≡ idle
        → Runs s (d ++ (v ∷ [])) (arrive v g)
    delivered : {s d : List V} {g : BufferedListener V} → Runs s d g → Runs s d (deliver_turn g)
    turned : {s d : List V} {g : BufferedListener V} → Runs s d g → Runs s d (open_turn g)

  record Ordered (s d : List V) (g : BufferedListener V) : Type ℓ where
    kept : g.calls ++ held_back g ≡ s ++ d
    buffers : is_some g.pending ≡ not (is_opened g.opening)
    flag : g.open_flag ≡ is_opened g.opening
    direct : is_calling g.delivering ≡ true → is_opened g.opening ≡ true
    quiet : g.opening ≡ subscribing → g.calls ≡ []

  new_listener-Ordered : Ordered [] [] new_listener
  unfolding new_listener
  new_listener-Ordered = record {
    kept = refl;
    buffers = refl;
    flag = refl;
    direct = λ e. absurd cc;
    quiet = λ _. refl;
  }

  abbrev pub listener :
      Option (List V) → Bool → Delivering V → Opening V → List V → BufferedListener V
  listener p o x y c = record { pending = p; open_flag = o; delivering = x; opening = y; calls = c }

  -- One more value goes to the end of those that were taken in.
  append_one :
      (c b q s d : List V) (v : V)
      → c ++ (b ++ (q ++ [])) ≡ s ++ d
      → c ++ (b ++ (q ++ (v ∷ []))) ≡ s ++ (d ++ (v ∷ []))
  append_one c b q s d v e =
      let left : c ++ (b ++ (q ++ (v ∷ []))) ≡ (c ++ (b ++ (q ++ []))) ++ (v ∷ []) =
        simp (append_assoc, append-nil) in
      left ∙ ap (λ t. t ++ (v ∷ [])) e ∙ append_assoc s d (v ∷ [])

  arrive-Ordered :
      (v : V) (s d : List V) (p : Option (List V)) (o : Bool) (x : Delivering V) (y : Opening V)
      (c : List V)
      → Ordered s d (listener p o x y c)
      → x ≡ idle
      → Ordered s (d ++ (v ∷ [])) (arrive v (listener p o x y c))
  unfolding arrive
  arrive-Ordered v s d p true idle y c h e = record {
    kept = append_one c (batch y) (buffer p) s d v h.kept;
    buffers = h.buffers;
    flag = h.flag;
    direct = λ _. sym h.flag;
    quiet = h.quiet;
  }
  arrive-Ordered v s d p false idle y c h e = record {
    kept = append_one c (batch y) (buffer p) s d v h.kept;
    buffers = h.buffers;
    flag = h.flag;
    direct = λ f. absurd cc;
    quiet = h.quiet;
  }
  arrive-Ordered v s d p o (locking w) y c h e = absurd cc
  arrive-Ordered v s d p o (calling w) y c h e = absurd cc

  deliver_turn-Ordered :
      (s d : List V) (p : Option (List V)) (o : Bool) (x : Delivering V) (y : Opening V)
      (c : List V)
      → Ordered s d (listener p o x y c)
      → Ordered s d (deliver_turn (listener p o x y c))
  unfolding deliver_turn
  deliver_turn-Ordered s d p o idle y c h = h
  deliver_turn-Ordered s d (some q) o (locking v) y c h = record {
    kept = ap (λ t. c ++ (batch y ++ t)) (append-nil (q ++ (v ∷ []))) ∙ h.kept;
    buffers = h.buffers;
    flag = h.flag;
    direct = λ f. absurd cc;
    quiet = h.quiet;
  }
  deliver_turn-Ordered s d none o (locking v) y c h = record {
    kept = h.kept;
    buffers = h.buffers;
    flag = h.flag;
    direct = λ f. ground (arith, h.buffers, Bool-cases (is_opened y));
    quiet = h.quiet;
  }
  deliver_turn-Ordered s d none o (calling v) opened c h = record {
    kept = append-nil (c ++ (v ∷ [])) ∙ h.kept;
    buffers = h.buffers;
    flag = h.flag;
    direct = λ f. absurd cc;
    quiet = λ f. absurd cc;
  }
  deliver_turn-Ordered s d (some q) o (calling v) opened c h = absurd (cc h.buffers)
  deliver_turn-Ordered s d p o (calling v) subscribing c h = absurd (cc (h.direct refl))
  deliver_turn-Ordered s d p o (calling v) looping c h = absurd (cc (h.direct refl))
  deliver_turn-Ordered s d p o (calling v) (replaying vs) c h = absurd (cc (h.direct refl))

  open_turn-Ordered :
      (s d : List V) (p : Option (List V)) (o : Bool) (x : Delivering V) (y : Opening V)
      (c : List V)
      → Ordered s d (listener p o x y c)
      → Ordered s d (open_turn (listener p o x y c))
  unfolding open_turn
  open_turn-Ordered s d p o x subscribing c h = h
  open_turn-Ordered s d none o x looping c h = absurd (cc h.buffers)
  open_turn-Ordered s d (some []) o x looping c h = record {
    kept = h.kept;
    buffers = refl;
    flag = refl;
    direct = λ f. refl;
    quiet = λ f. absurd cc;
  }
  open_turn-Ordered s d (some (v ∷ vs)) o x looping c h = record {
    kept = h.kept;
    buffers = refl;
    flag = h.flag;
    direct = h.direct;
    quiet = λ f. absurd cc;
  }
  open_turn-Ordered s d p o x (replaying []) c h = record {
    kept = h.kept;
    buffers = h.buffers;
    flag = h.flag;
    direct = h.direct;
    quiet = λ f. absurd cc;
  }
  open_turn-Ordered s d p o x (replaying (v ∷ vs)) c h = record {
    kept = append_assoc c (v ∷ []) (vs ++ (buffer p ++ hand x)) ∙ h.kept;
    buffers = h.buffers;
    flag = h.flag;
    direct = h.direct;
    quiet = λ f. absurd cc;
  }
  open_turn-Ordered s d p o x opened c h = h

  -- Before `open` nothing but the snapshot is called.
  call_snapshot-Ordered :
      (t : Option V) (d : List V) (p : Option (List V)) (o : Bool) (x : Delivering V)
      (y : Opening V) (c : List V)
      → Ordered [] d (listener p o x y c)
      → y ≡ subscribing
      → Ordered (snapshot_calls t) d (call_snapshot t (listener p o x y c))
  unfolding call_snapshot
  call_snapshot-Ordered none d p o x subscribing c h f = record {
    kept = h.kept;
    buffers = h.buffers;
    flag = h.flag;
    direct = h.direct;
    quiet = λ e. absurd cc;
  }
  call_snapshot-Ordered (some v) d p o x subscribing c h f =
      let rest = buffer p ++ hand x in
      record {
        kept =
            ap (λ t. (t ++ (v ∷ [])) ++ rest) (h.quiet refl)
            ∙ ap (◌∷◌ v) (ap (λ t. t ++ rest) (sym (h.quiet refl)) ∙ h.kept);
        buffers = h.buffers;
        flag = h.flag;
        direct = h.direct;
        quiet = λ e. absurd cc;
      }
  call_snapshot-Ordered t d p o x looping c h f = absurd cc
  call_snapshot-Ordered t d p o x (replaying vs) c h f = absurd cc
  call_snapshot-Ordered t d p o x opened c h f = absurd cc

  Runs-Ordered : {s d : List V} {g : BufferedListener V} → Runs s d g → Ordered s d g
  Runs-Ordered begun = new_listener-Ordered
  Runs-Ordered (snapped o {d = d} {g = g} r e) =
      call_snapshot-Ordered o d g.pending g.open_flag g.delivering g.opening g.calls
        (Runs-Ordered r) e
  Runs-Ordered (arrived v {s = s} {d = d} {g = g} r e) =
      arrive-Ordered v s d g.pending g.open_flag g.delivering g.opening g.calls (Runs-Ordered r) e
  Runs-Ordered (delivered {s = s} {d = d} {g = g} r) =
      deliver_turn-Ordered s d g.pending g.open_flag g.delivering g.opening g.calls (Runs-Ordered r)
  Runs-Ordered (turned {s = s} {d = d} {g = g} r) =
      open_turn-Ordered s d g.pending g.open_flag g.delivering g.opening g.calls (Runs-Ordered r)

  open_calls :
      (s d : List V) (p : Option (List V)) (x : Delivering V) (y : Opening V) (c : List V)
      → Ordered s d (listener p true x y c)
      → c ++ hand x ≡ s ++ d
  open_calls s d none x opened c h = h.kept
  open_calls s d (some q) x opened c h = absurd (cc h.buffers)
  open_calls s d p x subscribing c h = absurd (cc h.flag)
  open_calls s d p x looping c h = absurd (cc h.flag)
  open_calls s d p x (replaying vs) c h = absurd (cc h.flag)

  -- However the subscribing thread and the reader thread interleave: the values the callback was
  -- called with and those still held back are together the snapshot and then all that was delivered,
  -- in order; and once the listener is open, only a value that the reader has in hand is yet to come.
  pub calls-Runs :
      (s d : List V) (g : BufferedListener V)
      → Runs s d g
      → (g.calls ++ held_back g ≡ s ++ d)
        × ((g.open_flag ≡ false) ⊎ (g.calls ++ hand g.delivering ≡ s ++ d))
  calls-Runs s d g r =
      let h = Runs-Ordered r in
      (
        h.kept,
        elim (Bool-cases g.open_flag) [
          | inl e ↦ inr (
              open_calls s d g.pending g.delivering g.opening g.calls (
                subst (λ o. Ordered s d (listener g.pending o g.delivering g.opening g.calls)) e h))
          | inr e ↦ inl e
        ],
      )
