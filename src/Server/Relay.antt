-- ===== src/Server/Relay.antt =====
-- core/src/server.rs: the relay of telemetry, which leases channels to addresses and copies each
-- datagram to the addresses of its channel.
pub mod Leases
pub mod Limits
mod Examples
use tarwyn.Base.{
  ℕ, ◌-◌, Bool, true, false, Option, none, some, [], ◌∷◌, List, leb, ltb, length, if◌then◌else◌,
  not, is_some, ◌&&◌, retain, unwrap_or, ◌==◌, nat_eq, Eq,
}
use tarwyn.Base.Assoc.{Assoc, lookup, insert, keys, map_values, or_default}
use tarwyn.Base.Bytes.{Bytes}
use tarwyn.Telemetry.{decode_datagram, decode_registration}

-- `TELEMETRY_TTL` in nanoseconds, `MAX_TELEMETRY_SUBSCRIBERS` and `MAX_TELEMETRY_CHANNELS`
abbrev pub telemetry_ttl : ℕ
telemetry_ttl = 10000000000

abbrev pub max_telemetry_subscribers : ℕ
max_telemetry_subscribers = 16

abbrev pub max_telemetry_channels : ℕ
max_telemetry_channels = 256

-- `telemetry_registry`, with the time of the last registration, and `telemetry_subscribers`, the
-- routes as the relay reads them. `A` is the standard library's socket address.
pub record Relay (A : Type 0) : Type 0 where
  pub registry : Assoc ℕ (Assoc A ℕ)
  pub published : Assoc ℕ (List A)

unfoldable pub is_live : ℕ → ℕ → Bool
is_live now seen = ltb (now - seen) telemetry_ttl

unfoldable pub has_items {ℓ} : {B : Type ℓ} → List B → Bool
has_items [] = false
has_items (_ ∷ _) = true

module _ {A : Type 0} where
  -- `registry.retain(|_, addresses| !addresses.is_empty())`
  unfoldable pub drop_unused : Assoc ℕ (Assoc A ℕ) → Assoc ℕ (Assoc A ℕ)
  drop_unused registry = retain (λ e. has_items e.1) registry

  unfoldable pub sweep : ℕ → Assoc ℕ (Assoc A ℕ) → Assoc ℕ (Assoc A ℕ)
  sweep now registry = drop_unused (map_values (retain (λ e. is_live now e.1)) registry)

  unfoldable pub snapshot : Assoc ℕ (Assoc A ℕ) → Assoc ℕ (List A)
  snapshot registry = map_values keys registry

  module _ ⦃e : Eq A⦄ where
    -- `now` is the reading of the clock.
    unfoldable pub register_telemetry : ℕ → ℕ → A → Relay A → Relay A × Bool
    register_telemetry now channel address r =
        let swept = sweep now r.registry in
        let addresses = or_default [] channel swept in
        let routed = insert channel (insert address now addresses) swept in
        if not (is_some (lookup channel swept)) && leb max_telemetry_channels (length swept)
        then (record r { registry = swept }, false)
        else if not (is_some (lookup address addresses))
            && leb max_telemetry_subscribers (length addresses)
        then (record r { registry = drop_unused (insert channel addresses swept) }, false)
        else (record { registry = routed; published = snapshot routed }, true)

    -- The targets of a datagram, less the relay's own port.
    unfoldable pub relay_targets : (A → ℕ) → Option A → ℕ → Relay A → List A
    relay_targets port own channel r = elim own [
      | some o ↦ retain (λ t. not (port o == port t)) (or_default [] channel r.published)
      | none ↦ or_default [] channel r.published
    ]

    -- One turn of the receive loop: the relay afterwards, and the addresses to which the datagram
    -- is copied.
    unfoldable pub receive : (A → ℕ) → Option A → ℕ → Bytes → A → Relay A → Relay A × List A
    receive port own now datagram from r = elim (decode_registration datagram) [
      | some channel ↦ ((register_telemetry now channel from r).0, [])
      | none ↦ elim (decode_datagram datagram) [
        | some (channel, _, _) ↦ (r, relay_targets port own channel r)
        | none ↦ (r, [])
      ]
    ]
