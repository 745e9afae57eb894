-- ===== src/Server/Relay/Leases.antt =====
-- What a registration gives its sender.
use tarwyn.Base.{
  ℕ, ◌-◌, ◌<◌, ◌≡◌, ◌⊎◌, refl, sym, subst, Bool, true, false, some, [], ◌∷◌, List, leb, length, not,
  is_some, ◌&&◌, retain, ◌==◌, nat_eq, Eq, any, arith, Bool-cases, inl, inr,
}
use tarwyn.Base.Assoc.{
  Assoc, lookup, insert, keys, map_values, or_default, lookup-insert, lookup-map_values,
  lookup-retain,
}
use tarwyn.Server.Relay.{
  Relay, telemetry_ttl, max_telemetry_subscribers, max_telemetry_channels, drop_unused, sweep,
  snapshot, register_telemetry, relay_targets, is_live, has_items,
}

module _ {A : Type 0} ⦃e : Eq A⦄ where
  has_items-lookup :
      (a : A) (seen : ℕ) (l : Assoc A ℕ) → lookup a l ≡ some seen → has_items l ≡ true
  unfolding has_items lookup
  has_items-lookup a seen [] h = absurd cc
  has_items-lookup a seen (x ∷ l) h = refl

  -- A lease that has not run out survives the sweep.
  lookup-sweep :
      (now channel seen : ℕ) (a : A) (registry : Assoc ℕ (Assoc A ℕ)) (l : Assoc A ℕ)
      → lookup channel registry ≡ some l
      → lookup a l ≡ some seen
      → now - seen < telemetry_ttl
      → (lookup channel (sweep now registry) ≡ some (retain (λ e. is_live now e.1) l))
        × (lookup a (retain (λ e. is_live now e.1) l) ≡ some seen)
  unfolding sweep drop_unused is_live
  lookup-sweep now channel seen a registry l h k t =
      let live = retain (λ e. is_live now e.1) l in
      let kept : lookup a live ≡ some seen =
        lookup-retain (is_live now) a seen l k (ground (arith, t)) in
      (
        lookup-retain has_items channel live (map_values (retain (λ e. is_live now e.1)) registry)
            (rw (lookup-map_values channel (retain (λ e. is_live now e.1)) registry, h) refl)
            (has_items-lookup a seen live kept),
        kept,
      )

  -- A sender whose lease on a channel has not run out may always renew it, however many others
  -- there are.
  pub register_telemetry_renewed :
      (now channel seen : ℕ) (a : A) (r : Relay A) (l : Assoc A ℕ)
      → lookup channel r.registry ≡ some l
      → lookup a l ≡ some seen
      → now - seen < telemetry_ttl
      → (register_telemetry now channel a r).1 ≡ true
  unfolding register_telemetry
  register_telemetry_renewed now channel seen a r l h k t =
      let (c, s) = lookup-sweep now channel seen a r.registry l h k t in rw (c, s) refl

  any-keys :
      (a : A) (now : ℕ) (l : Assoc A ℕ) → lookup a l ≡ some now → any (λ b. b == a) (keys l) ≡ true
  unfolding lookup
  any-keys a now [] h = absurd cc
  any-keys a now ((b, n) ∷ l) h = ground (arith, any-keys a now l, h)

  any-retain :
      (p : A → Bool) (a : A) (l : List A)
      → any (λ b. b == a) l ≡ true
      → p a ≡ true
      → any (λ b. b == a) (retain p l) ≡ true
  any-retain p a [] h k = h
  any-retain p a (b ∷ l) h k = elim (Bool-cases (e.eqb b a)) [
    | inl f ↦ rw (subst (λ x. p x ≡ true) (sym ((e.eqb_iff b a).0 f)) k, f) refl
    | inr f ↦ elim (Bool-cases (p b)) [
      | inl q ↦ rw (q, f) (any-retain p a l (ground (arith, f, h)) k)
      | inr q ↦ rw q (any-retain p a l (ground (arith, f, h)) k)
    ]
  ]

  -- The routes of the channel after a registration that was taken.
  register_telemetry_taken :
      (now channel : ℕ) (a : A) (r : Relay A)
      → (register_telemetry now channel a r).1 ≡ true
      → lookup channel (register_telemetry now channel a r).0.published
        ≡ some (keys (insert a now (or_default [] channel (sweep now r.registry))))
  unfolding register_telemetry snapshot
  register_telemetry_taken now channel a r =
      let swept = sweep now r.registry in
      let addresses = or_default [] channel swept in
      elim (Bool-cases
        (not (is_some (lookup channel swept)) && leb max_telemetry_channels (length swept))) [
          | inl full ↦ rw full (λ f. absurd cc)
          | inr room ↦
              elim (Bool-cases (
                not (is_some (lookup a addresses))
                && leb max_telemetry_subscribers (length addresses))) [
                  | inl crowded ↦ rw (room, crowded) (λ f. absurd cc)
                  | inr free ↦
                      rw
                        (
                          room,
                          free,
                          lookup-map_values channel keys
                              (insert channel (insert a now addresses) swept),
                          lookup-insert channel channel (insert a now addresses) swept,
                        )
                        (λ _. ground (arith, nat_eq.eqb_iff channel channel))
                ]
        ]

  any-relay_targets :
      (port : A → ℕ) (own : A) (now channel : ℕ) (a b : A) (seen : ℕ) (r : Relay A)
      → (port own == port b) ≡ false
      → (register_telemetry now channel a r).1 ≡ true
      → lookup b (insert a now (or_default [] channel (sweep now r.registry))) ≡ some seen
      → any
          (λ c. c == b)
          (relay_targets port (some own) channel (register_telemetry now channel a r).0)
        ≡ true
  unfolding relay_targets
  any-relay_targets port own now channel a b seen r other taken h =
      let routed = insert a now (or_default [] channel (sweep now r.registry)) in
      rw (register_telemetry_taken now channel a r taken) (
        any-retain (λ t. not (port own == port t)) b (keys routed) (any-keys b seen routed h)
          (ground (arith, other)))

  -- The address has a lease on the channel that has not run out.
  abbrev pub IsLeased : ℕ → ℕ → A → Relay A → Type 0
  IsLeased now channel b r =
      (l : Assoc A ℕ) × (seen : ℕ) × (lookup channel r.registry ≡ some l)
      × (lookup b l ≡ some seen)
      × (now - seen < telemetry_ttl)

  -- A registration that is taken routes the channel's datagrams to its address, and goes on routing
  -- them to each address with a lease on the channel that has not run out; an address on the relay's
  -- own port apart.
  pub relay_targets-register_telemetry :
      (port : A → ℕ) (own : A) (now channel : ℕ) (a b : A) (r : Relay A)
      → (port own == port b) ≡ false
      → (b ≡ a) ⊎ IsLeased now channel b r
      → (register_telemetry now channel a r).1 ≡ true
      → any
          (λ c. c == b)
          (relay_targets port (some own) channel (register_telemetry now channel a r).0)
        ≡ true
  relay_targets-register_telemetry port own now channel a b r other lease taken =
      let live = or_default [] channel (sweep now r.registry) in
      elim (Bool-cases (a == b)) [
        | inl same ↦
            any-relay_targets port own now channel a b now r other taken
              (rw (lookup-insert b a now live, same) refl)
        | inr apart ↦ elim lease [
          | inl same ↦ absurd (ground (arith, apart, e.eqb_iff a b, sym same))
          | inr (l, seen, h, k, t) ↦
              let (swept, kept) = lookup-sweep now channel seen b r.registry l h k t in
              let held : lookup b live ≡ some seen = rw swept kept in
              any-relay_targets port own now channel a b seen r other taken
                (rw (lookup-insert b a now live, apart) held)
        ]
      ]
