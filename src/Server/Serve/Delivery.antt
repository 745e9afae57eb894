-- ===== src/Server/Serve/Delivery.antt =====
-- A frame of value messages, from the socket that it came in on to the sockets that it goes out on.
use tarwyn.Base.{ℕ, ◌≡◌, Bool, Option, none, some, List, Text, nat_eq}
use tarwyn.Base.Assoc.{lookup}
use tarwyn.Base.Bytes.{Bytes}
use tarwyn.Json.{Json}
use tarwyn.Message.Value.{ValueMessage}
use tarwyn.Registry.State.{Env, Routes, NtRegistry}
use tarwyn.Server.Requests.{Codec, Node}
use tarwyn.Server.Serve.{hearing}
use tarwyn.Session.{route_values, Mirrors}
use tarwyn.Transport.{Message}
use tarwyn.Transport.Dispatch

module _ {A S : Type 0} (send : S → Message → S × Bool) (X : Codec) (env : Env) where
  abbrev Injective : Node A S → Type 0
  Injective n =
      (i j address : ℕ)
      → lookup i n.connections.senders ≡ some address
      → lookup j n.connections.senders ≡ some address
      → i ≡ j

  -- The registry after a frame of value messages, the frames to send and the values to cache.
  abbrev handled :
      (Text → Option Json)
      → (ℕ → ℕ)
      → ℕ
      → List ValueMessage
      → Node A S
      → NtRegistry × (Routes × Mirrors)
  handled from_str now id vms n = route_values (hearing env from_str now none) id 0 vms n.registry
