-- ===== src/Server/Serve.antt =====
-- core/src/websocket/server.rs: the life of a connection on the server's state: it is registered, its
-- frames are served one after another, and it is removed. A frame is one step here; the locks that
-- the program takes and releases within it are not told apart.
mod Reach
mod Delivery
mod Sent
mod Examples
use tarwyn.Base.{ℕ, Bool, true, false, Option, none, some, [], ◌∷◌, Text, utf8, option_map}
use tarwyn.Base.Bytes.{Bytes}
use tarwyn.Base.Outcome.{ok, err}
use tarwyn.Json.{Json}
use tarwyn.Kind.{Prost}
use tarwyn.Message.Value.{decode_all}
use tarwyn.Registry.Lifecycle.{on_connect, on_disconnect}
use tarwyn.Registry.State.{NtRegistry, Routes, Env, value}
use tarwyn.Server.Cache.{Cache, store}
use tarwyn.Server.Requests.{Codec, Clock, Node, control_handler}
use tarwyn.Session.{
  Host, Payload, binary, text, RouteOutcome, dispatch, control_reply, close, Mirrors, route,
}
use tarwyn.Transport.{Message, Client}
use tarwyn.Transport.Dispatch.{ConnectionMap, put_client, add_client, remove_client, send_close}
use tarwyn.Transport.Dispatch

-- The calls of `value_sink`, in order.
unfoldable pub sink_all : Prost → Mirrors → Cache → Cache
sink_all P [] cached = cached
sink_all P ((name, v) ∷ seen) cached = sink_all P seen (store P name v cached)

-- What a session is given while one frame is routed.
abbrev pub hearing : Env → (Text → Option Json) → (ℕ → ℕ) → Option Bytes → Host
hearing env from_str now reply = record {
  env = env;
  from_str = from_str;
  control_handler = λ _. reply;
  now = now;
}

module _ {A S : Type 0} (send : S → Message → S × Bool) (X : Codec) (env : Env) where
  -- `conns.lock().dispatch(routes)`
  unfoldable pub dispatched : Routes → Node A S → Node A S
  dispatched routes n =
      let (clients, (connections, dropped)) =
        Dispatch.dispatch send X.print routes n.connections n.clients in
      record n { connections = connections; clients = clients }

  -- The control handler is asked about a binary payload that is no value message.
  unfoldable pub consult : Clock → Payload → Node A S → Node A S × Option Bytes
  consult clock (text t) n = (n, none)
  consult clock (binary payload) n =
      let handled = control_handler send X clock payload n in
      elim (decode_all env.floats payload) [ some (ok _) ↦ (n, none) | _ ↦ handled ]

  -- What becomes of the outcome, and whether the connection goes on.
  unfoldable pub respond : ℕ → RouteOutcome → Node A S → Node A S × Bool
  respond id (dispatch []) n = (n, true)
  respond id (dispatch (route ∷ routes)) n = (dispatched (route ∷ routes) n, true)
  respond id (control_reply reply) n = (dispatched ((id, value reply) ∷ []) n, true)
  respond id close n =
      let clients = send_close id 1002 (utf8 "malformed payload") n.connections n.clients in
      (record n { clients = clients }, false)

  -- One round of `serve_connection`.
  unfoldable pub serve :
      (Text → Option Json) → (ℕ → ℕ) → Clock → ℕ → Payload → Node A S → Node A S × Bool
  serve from_str now clock id payload n =
      let (heard, reply) = consult clock payload n in
      let (r, (outcome, seen)) = route (hearing env from_str now reply) id payload heard.registry in
      respond id outcome
        (record heard { registry = r; cached = sink_all X.prost seen heard.cached })

  -- `spawn_connection` up to the loop, and behind it.
  unfoldable pub connect : ℕ → ℕ → Client S → Text → Text → Node A S → Option (Node A S)
  connect id address c client_name peer n =
      option_map
        (λ p. dispatched p.1 (record n {
          registry = p.0;
          connections = add_client id address n.connections;
          clients = put_client address c n.clients;
        }))
        (on_connect env id client_name peer n.registry)

  unfoldable pub disconnect : ℕ → Node A S → Node A S
  disconnect id n =
      let (r, routes) = on_disconnect env id n.registry in
      dispatched routes (record n { registry = r; connections = remove_client id n.connections })
