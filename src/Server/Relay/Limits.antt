-- ===== src/Server/Relay/Limits.antt =====
-- How many channels and addresses the relay keeps, and so how far it copies one datagram.
use tarwyn.Base.{
  ℕ, ◌≤◌, ◌≡◌, ◌≢◌, ◌⊎◌, refl, false, Option, none, some, [], ◌∷◌, List, leb, length, not, is_some,
  ◌&&◌, retain, ◌==◌, nat_eq, Eq, All, All-retain, length-retain_le, arith, Bool-cases,
  Option-cases, inl, inr, length-map,
}
use tarwyn.Base.Assoc.{
  Assoc, lookup, insert, map_values, or_default, length-insert, All-insert, All-lookup,
}
use tarwyn.Base.Bytes.{Bytes}
use tarwyn.Server.Relay.{
  Relay, max_telemetry_subscribers, max_telemetry_channels, drop_unused, sweep, snapshot,
  register_telemetry, relay_targets, receive, is_live, has_items,
}
use tarwyn.Telemetry.{decode_datagram, decode_registration}

abbrev IsShort {ℓ} : {B : Type ℓ} → List B → Type 0
IsShort l = length l ≤ max_telemetry_subscribers

module _ {A : Type 0} where
  -- The limits on the registry and on the routes that the relay reads.
  abbrev IsWithin : Assoc ℕ (Assoc A ℕ) → Type 0
  IsWithin registry = All (λ e. IsShort e.1) registry × (length registry ≤ max_telemetry_channels)

  abbrev pub IsRelay : Relay A → Type 0
  IsRelay r = IsWithin r.registry × All (λ e. IsShort e.1) r.published

  IsShort-live :
      (now : ℕ) (m : Assoc ℕ (Assoc A ℕ))
      → All (λ e. IsShort e.1) m
      → All (λ e. IsShort e.1) (map_values (retain (λ e. is_live now e.1)) m)
  IsShort-live now [] h = tt
  IsShort-live now ((c, l) ∷ m) (q, h) =
      (omega (arith, length-retain_le (λ e. is_live now e.1) l, q), IsShort-live now m h)

  length-map_values {κ} :
      {W : Type κ} (f : Assoc A ℕ → W) (m : Assoc ℕ (Assoc A ℕ))
      → length (map_values f m) ≡ length m
  length-map_values f [] = refl
  length-map_values f ((c, l) ∷ m) = omega (arith, length-map_values f m)

  drop_unused-IsWithin : (m : Assoc ℕ (Assoc A ℕ)) → IsWithin m → IsWithin (drop_unused m)
  unfolding drop_unused
  drop_unused-IsWithin m (h, l) = (
    All-retain (λ e. IsShort e.1) (λ e. has_items e.1) m h,
    omega (arith, length-retain_le (λ e. has_items e.1) m, l),
  )

  sweep-IsWithin : (now : ℕ) (m : Assoc ℕ (Assoc A ℕ)) → IsWithin m → IsWithin (sweep now m)
  unfolding sweep
  sweep-IsWithin now m (h, l) =
      let live = map_values (retain (λ e. is_live now e.1)) m in
      drop_unused-IsWithin live (
        IsShort-live now m h,
        omega (arith, length-map_values (retain (λ e. is_live now e.1)) m, l),
      )

  IsShort-snapshot :
      (m : Assoc ℕ (Assoc A ℕ)) → All (λ e. IsShort e.1) m → All (λ e. IsShort e.1) (snapshot m)
  unfolding snapshot
  IsShort-snapshot [] h = tt
  IsShort-snapshot ((c, l) ∷ m) (q, h) =
      (omega (arith, length-map (λ e. e.0) l, q), IsShort-snapshot m h)

  module _ ⦃e : Eq A⦄ where
    insert-IsWithin :
        (c : ℕ) (l : Assoc A ℕ) (m : Assoc ℕ (Assoc A ℕ))
        → IsWithin m
        → IsShort l
        → (not (is_some (lookup c m)) && leb max_telemetry_channels (length m)) ≡ false
        → IsWithin (insert c l m)
    insert-IsWithin c l m (h, n) s room =
        (All-insert IsShort c l m s h, ground (arith, length-insert c l m, n, room))

    IsShort-found :
        (c : ℕ) (m : Assoc ℕ (Assoc A ℕ)) → All (λ e. IsShort e.1) m → IsShort (or_default [] c m)
    IsShort-found c m h = elim (Option-cases (lookup c m)) [
      | inl f ↦ rw f (omega arith)
      | inr (l, f) ↦ rw f (All-lookup IsShort c m h f)
    ]

    IsShort-insert :
        (a : A) (now : ℕ) (l : Assoc A ℕ)
        → IsShort l
        → (not (is_some (lookup a l)) && leb max_telemetry_subscribers (length l)) ≡ false
        → IsShort (insert a now l)
    IsShort-insert a now l s free = ground (arith, length-insert a now l, s, free)

    register_telemetry-IsRelay :
        (now channel : ℕ) (address : A) (r : Relay A)
        → IsRelay r
        → IsRelay (register_telemetry now channel address r).0
    unfolding register_telemetry
    register_telemetry-IsRelay now channel address r (w, p) =
        let swept = sweep now r.registry in
        let addresses = or_default [] channel swept in
        let s = sweep-IsWithin now r.registry w in
        let short = IsShort-found channel swept s.0 in
        elim (Bool-cases
          (not (is_some (lookup channel swept)) && leb max_telemetry_channels (length swept))) [
            | inl full ↦ rw full (s, p)
            | inr room ↦
                elim (Bool-cases (
                  not (is_some (lookup address addresses))
                  && leb max_telemetry_subscribers (length addresses))) [
                    | inl crowded ↦
                        rw (room, crowded)
                          (
                            drop_unused-IsWithin (insert channel addresses swept)
                                (insert-IsWithin channel addresses swept s short room),
                            p,
                          )
                    | inr free ↦
                        rw (room, free)
                          (let routed =
                              insert-IsWithin channel (insert address now addresses) swept s
                                (IsShort-insert address now addresses short free) room in
                            (
                              routed,
                              IsShort-snapshot (insert channel (insert address now addresses) swept)
                                  routed.0,
                            ))
                  ]
          ]

    -- A datagram registers its sender, or is dropped, or is copied.
    receive_cases :
        (port : A → ℕ) (own : Option A) (now : ℕ) (datagram : Bytes) (from : A) (r : Relay A)
        → ((c : ℕ) × (receive port own now datagram from r
              ≡ ((register_telemetry now c from r).0, [])))
          ⊎ ((receive port own now datagram from r ≡ (r, []))
              ⊎ ((c : ℕ) × (receive port own now datagram from r
                    ≡ (r, relay_targets port own c r))))
    unfolding receive
    receive_cases port own now datagram from r =
        elim (Option-cases (decode_registration datagram)) [
          | inr (c, f) ↦ inl (c, rw (receive, f) refl)
          | inl f ↦ elim (Option-cases (decode_datagram datagram)) [
            | inl g ↦ inr (inl (rw (receive, f, g) refl))
            | inr (d, g) ↦ inr (inr (d.0, rw (receive, f, g) refl))
          ]
        ]

    receive-IsRelay :
        (port : A → ℕ) (own : Option A) (now : ℕ) (datagram : Bytes) (from : A) (r : Relay A)
        → IsRelay r
        → IsRelay (receive port own now datagram from r).0
    receive-IsRelay port own now datagram from r h =
        elim (receive_cases port own now datagram from r) [
          | inl (c, f) ↦ rw f (register_telemetry-IsRelay now c from r h)
          | inr (inl f) ↦ rw f h
          | inr (inr (c, f)) ↦ rw f h
        ]

    -- The relay after any datagrams, from any addresses, at any times.
    pub data RelayReach (port : A → ℕ) (own : Option A) : Relay A → Type 0 where
      started : RelayReach port own (record { registry = []; published = [] })
      received :
          (now : ℕ) (datagram : Bytes) (from : A) {r : Relay A}
          → RelayReach port own r
          → RelayReach port own (receive port own now datagram from r).0

    pub Reach-IsRelay :
        (port : A → ℕ) (own : Option A) {r : Relay A} → RelayReach port own r → IsRelay r
    Reach-IsRelay port own started = ((tt, omega arith), tt)
    Reach-IsRelay port own (received now datagram from {r = r} h) =
        receive-IsRelay port own now datagram from r (Reach-IsRelay port own h)

    retained_other :
        (port : A → ℕ) (o : A) (l : List A)
        → All (λ t. port o ≢ port t) (retain (λ t. not (port o == port t)) l)
    retained_other port o [] = tt
    retained_other port o (t ∷ ts) = elim (Bool-cases (port o == port t)) [
      | inl f ↦ rw f (retained_other port o ts)
      | inr f ↦ rw f ((λ same. ground (arith, f, same)), retained_other port o ts)
    ]

    IsShort-routes :
        (channel : ℕ) (routes : Assoc ℕ (List A))
        → All (λ e. IsShort e.1) routes
        → IsShort (or_default [] channel routes)
    IsShort-routes c m h = elim (Option-cases (lookup c m)) [
      | inl f ↦ rw f (omega arith)
      | inr (l, f) ↦ rw f (All-lookup IsShort c m h f)
    ]

    IsShort-relay_targets :
        (port : A → ℕ) (own : Option A) (channel : ℕ) (r : Relay A)
        → IsRelay r
        → IsShort (relay_targets port own channel r)
    unfolding relay_targets
    IsShort-relay_targets port (some o) channel r h = omega (
      arith,
      length-retain_le (λ t. not (port o == port t)) (or_default [] channel r.published),
      IsShort-routes channel r.published h.1,
    )
    IsShort-relay_targets port none channel r h = IsShort-routes channel r.published h.1

    -- Whatever reached the relay before, it keeps at most 256 channels and copies a datagram to at
    -- most 16 addresses.
    pub receive-RelayReach :
        (port : A → ℕ) (own : Option A) (now : ℕ) (datagram : Bytes) (from : A) (r : Relay A)
        → RelayReach port own r
        → (length r.registry ≤ max_telemetry_channels)
          × (length (receive port own now datagram from r).1 ≤ max_telemetry_subscribers)
    receive-RelayReach port own now datagram from r h =
        let v = Reach-IsRelay port own h in
        elim (receive_cases port own now datagram from r) [
          | inl (c, f) ↦ rw f (v.0.1, omega arith)
          | inr (inl f) ↦ rw f (v.0.1, omega arith)
          | inr (inr (c, f)) ↦ rw f (v.0.1, IsShort-relay_targets port own c r v)
        ]

    -- The relay never copies a datagram to its own port.
    pub receive-own :
        (port : A → ℕ) (o : A) (now : ℕ) (datagram : Bytes) (from : A) (r : Relay A)
        → All (λ t. port o ≢ port t) (receive port (some o) now datagram from r).1
    unfolding relay_targets
    receive-own port o now datagram from r =
        elim (receive_cases port (some o) now datagram from r) [
          | inl (c, f) ↦ rw f tt
          | inr (inl f) ↦ rw f tt
          | inr (inr (c, f)) ↦ rw f (retained_other port o (or_default [] c r.published))
        ]
