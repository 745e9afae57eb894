-- ===== src/Server/Serve/Reach.antt =====
-- Whatever clients send and however they come and go, the parts of the server's state stay sound.
use tarwyn.Base.{
  ℕ, ◌≡◌, ◌≤◌, Bool, Option, some, [], ◌∷◌, Text, inl, inr, Option-cases, length,
  option_map-eq-some, subst,
}
use tarwyn.Base.Outcome.{ok, err}
use tarwyn.Json.{Json}
use tarwyn.Kind.{Kind, Prost}
use tarwyn.Logger.{LogRecord, log}
use tarwyn.Message.Value.{decode_all}
use tarwyn.Registry.Invariant.{IsValid}
use tarwyn.Registry.Invariant.Reach.{start, next, connects, disconnects, Reach-IsValid}
use tarwyn.Registry.Lifecycle.{on_connect}
use tarwyn.Registry.State.{Env, new, max_topics}
use tarwyn.Server.Cache.{Cache, count_values}
use tarwyn.Server.Cache.Reach.{CacheReach, started, passed_on, count_values-CacheReach}
use tarwyn.Server.Requests.{Codec, Clock, Node, relay_logs}
use tarwyn.Server.Requests.Replies.{IsSound, control_handler-IsSound, relay_logs-IsSound}
use tarwyn.Server.Serve.{
  sink_all, hearing, consult, respond, dispatched, serve, connect, disconnect,
}
use tarwyn.Session.{
  Payload, binary, text, RouteOutcome, dispatch, control_reply, close, Mirrors, route,
}
use tarwyn.Session.Reach.{route-Reach}
use tarwyn.Transport.{Message, Client}

sink_all-CacheReach :
    (P : Prost) (same : Kind → Kind → Bool) (seen : Mirrors) (cached : Cache)
    → CacheReach P same cached
    → CacheReach P same (sink_all P seen cached)
unfolding sink_all
sink_all-CacheReach P same [] cached h = h
sink_all-CacheReach P same ((name, v) ∷ seen) cached h =
    sink_all-CacheReach P same seen _ (passed_on name v h)

module _ {A S : Type 0} (send : S → Message → S × Bool) (X : Codec) (env : Env) where
  abbrev Sound : Node A S → Type 0
  Sound n = IsSound send X env n

  consult-IsSound :
      (clock : Clock) (payload : Payload) (n : Node A S)
      → Sound n
      → Sound (consult send X env clock payload n).0
  unfolding consult
  consult-IsSound clock (text t) n h = h
  consult-IsSound clock (binary payload) n h = elim (Option-cases (decode_all env.floats payload)) [
    | inl e ↦ rw (e, consult) (control_handler-IsSound send X env clock payload n h)
    | inr (ok vms, e) ↦ rw (e, consult) h
    | inr (err x, e) ↦ rw (e, consult) (control_handler-IsSound send X env clock payload n h)
  ]

  dispatched-IsSound :
      (routes : _) (n : Node A S) → Sound n → Sound (dispatched send X env routes n)
  unfolding dispatched
  dispatched-IsSound routes n h = record {
    registry_reached = h.registry_reached;
    cache_reached = h.cache_reached;
  }

  respond-IsSound :
      (id : ℕ) (outcome : RouteOutcome) (n : Node A S)
      → Sound n
      → Sound (respond send X env id outcome n).0
  unfolding respond
  respond-IsSound id (dispatch []) n h = h
  respond-IsSound id (dispatch (r ∷ routes)) n h = dispatched-IsSound (r ∷ routes) n h
  respond-IsSound id (control_reply reply) n h = dispatched-IsSound _ n h
  respond-IsSound id close n h = record {
    registry_reached = h.registry_reached;
    cache_reached = h.cache_reached;
  }

  serve-IsSound :
      (from_str : Text → Option Json) (now : ℕ → ℕ) (clock : Clock) (id : ℕ) (payload : Payload)
      (n : Node A S)
      → Sound n
      → Sound (serve send X env from_str now clock id payload n).0
  unfolding serve
  serve-IsSound from_str now clock id payload n h =
      let (heard, reply) = consult send X env clock payload n in
      let host = hearing env from_str now reply in
      let (r, (outcome, seen)) = route host id payload heard.registry in
      let before = consult-IsSound clock payload n h in
      respond-IsSound id outcome
        (record heard { registry = r; cached = sink_all X.prost seen heard.cached })
        (record {
          registry_reached = route-Reach host id payload before.registry_reached;
          cache_reached = sink_all-CacheReach X.prost X.same seen _ before.cache_reached;
        })

  disconnect-IsSound : (id : ℕ) (n : Node A S) → Sound n → Sound (disconnect send X env id n)
  unfolding disconnect dispatched
  disconnect-IsSound id n h = record {
    registry_reached = next h.registry_reached (disconnects id);
    cache_reached = h.cache_reached;
  }

  connect-IsSound :
      (id address : ℕ) (c : Client S) (client_name peer : Text) (n after : Node A S)
      → connect send X env id address c client_name peer n ≡ some after
      → Sound n
      → Sound after
  unfolding connect dispatched
  connect-IsSound id address c client_name peer n after e h =
      let (p, joined, done) =
        option_map-eq-some _ (on_connect env id client_name peer n.registry) e in
      subst Sound done (record {
        registry_reached = next h.registry_reached (connects id client_name peer joined);
        cache_reached = h.cache_reached;
      })

  -- What happens to a running server, in any order: clients come, send, and go, lines are logged and
  -- the log is relayed.
  pub data Step (n : Node A S) : Node A S → Type 0 where
    joins :
        (id address : ℕ) (c : Client S) (client_name peer : Text) {after : Node A S}
        → connect send X env id address c client_name peer n ≡ some after
        → Step n after
    serves :
        (from_str : Text → Option Json) (now : ℕ → ℕ) (clock : Clock) (id : ℕ) (payload : Payload)
        → Step n (serve send X env from_str now clock id payload n).0
    leaves : (id : ℕ) → Step n (disconnect send X env id n)
    logs : (max_level : ℕ) (r : LogRecord) → Step n (record n { logger = log max_level r n.logger })
    relays_logs : (micros : ℕ) → Step n (relay_logs send X micros n)

  pub data Runs (n : Node A S) : Node A S → Type 0 where
    idles : Runs n n
    steps : {before after : Node A S} → Runs n before → Step before after → Runs n after

  Step-IsSound : {n after : Node A S} → Step n after → Sound n → Sound after
  Step-IsSound (joins id address c client_name peer e) h =
      connect-IsSound id address c client_name peer _ _ e h
  Step-IsSound (serves from_str now clock id payload) h =
      serve-IsSound from_str now clock id payload _ h
  Step-IsSound (leaves id) h = disconnect-IsSound id _ h
  Step-IsSound (logs max_level r) h = record {
    registry_reached = h.registry_reached;
    cache_reached = h.cache_reached;
  }
  Step-IsSound (relays_logs micros) h = relay_logs-IsSound send X env micros _ h

  Runs-IsSound : {n after : Node A S} → Runs n after → Sound n → Sound after
  Runs-IsSound idles h = h
  Runs-IsSound (steps runs step) h = Step-IsSound step (Runs-IsSound runs h)

  -- A server whose registry and cache began empty, whatever clients sent, however they came and went
  -- and whatever was logged, has a valid registry, at most as many channels in its cache as there may
  -- be topics, and one value in each.
  pub Runs-IsValid :
      (n after : Node A S)
      → n.registry ≡ new
      → n.cached ≡ []
      → Runs n after
      → IsValid after.registry
        × (length after.cached ≤ max_topics)
        × (count_values after.cached ≡ length after.cached)
  Runs-IsValid n after e c runs =
      let h : Sound n = record { registry_reached = rw e start; cache_reached = rw c started } in
      let kept = Runs-IsSound runs h in
      let (few, each) = count_values-CacheReach X.prost X.same after.cached kept.cache_reached in
      (Reach-IsValid kept.registry_reached, few, each)
