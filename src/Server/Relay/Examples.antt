-- ===== src/Server/Relay/Examples.antt =====
-- The relay with numbers for addresses, each its own port.
use tarwyn.Base.{inr, arith, ℕ, ◌≤◌, ◌≡◌, refl, true, some, [], ◌∷◌, length, any, ◌==◌, nat_eq}
use tarwyn.Base.Assoc.{lookup}
use tarwyn.Base.Bytes.{Bytes}
use tarwyn.Server.Relay.{
  Relay, sweep, drop_unused, has_items, is_live, register_telemetry, receive, relay_targets,
  max_telemetry_subscribers, max_telemetry_channels,
}
use tarwyn.Server.Relay.Leases.{relay_targets-register_telemetry}
use tarwyn.Server.Relay.Limits.{started, received, receive-RelayReach}

abbrev own_port : ℕ → ℕ
own_port a = a

abbrev quiet : Relay ℕ
quiet = record { registry = []; published = [] }

-- A registration for channel 7, and a data datagram on it.
abbrev registration : Bytes
registration =
    0x02 ∷ 0x00 ∷ 0x54 ∷ 0x58 ∷ 7 ∷ 0 ∷ 0 ∷ 0 ∷ 0 ∷ 0 ∷ 0 ∷ 0 ∷ 0 ∷ 0 ∷ 0 ∷ 0 ∷ 0 ∷ 0 ∷ 0 ∷ 0 ∷ []

abbrev reading : Bytes
reading =
    0x01 ∷ 0x00 ∷ 0x54 ∷ 0x58 ∷ 7 ∷ 0 ∷ 0 ∷ 0 ∷ 0 ∷ 0 ∷ 0 ∷ 0 ∷ 0 ∷ 0 ∷ 0 ∷ 0 ∷ 1 ∷ 0 ∷ 0 ∷ 0 ∷ 42
    ∷ []

abbrev registered : Relay ℕ
registered = (receive own_port (some 5) 100 registration 9 quiet).0

receive-RelayReach_example :
    (length registered.registry ≤ max_telemetry_channels)
    × (length (receive own_port (some 5) 200 reading 3 registered).1 ≤ max_telemetry_subscribers)
receive-RelayReach_example =
    receive-RelayReach own_port (some 5) 200 reading 3 registered
      (received 100 registration 9 started)

abbrev leased : Relay ℕ
leased = record { registry = (7, (9, 100) ∷ []) ∷ []; published = (7, 9 ∷ []) ∷ [] }

leased_channel : lookup 7 leased.registry ≡ some ((9, 100) ∷ [])
unfolding lookup
leased_channel = refl

leased_address : lookup {K = ℕ} {V = ℕ} 9 ((9, 100) ∷ []) ≡ some 100
unfolding lookup
leased_address = refl

taken : (register_telemetry 200 7 4 leased).1 ≡ true
unfolding register_telemetry sweep drop_unused lookup has_items is_live
taken = refl

relay_targets-register_telemetry_example :
    any (λ c. c == 9) (relay_targets own_port (some 5) 7 (register_telemetry 200 7 4 leased).0)
    ≡ true
relay_targets-register_telemetry_example =
    relay_targets-register_telemetry own_port 5 200 7 4 9 leased refl
      (inr ((9, 100) ∷ [], 100, leased_channel, leased_address, omega arith)) taken
