-- ===== src/Session/Meant.antt =====
-- What a frame of value messages does, told from the registry as it was before the frame.
use tarwyn.Base.{
  ℕ, ◌+◌, ◌≡◌, refl, none, some, List, [], ◌∷◌, ◌++◌, ◌==◌, nat_eq, ◌&&◌, if◌then◌else◌, contains,
  Option-cases, Bool-cases, inl, inr, arith, subst, ap, ap₂, sym, ◌∙◌,
}
use tarwyn.Base.Assoc.{or_default}
use tarwyn.Message.Value.{ValueMessage, rtt_topic_id}
use tarwyn.Registry.Access.{topic_name}
use tarwyn.Registry.Core.{encode_once}
use tarwyn.Registry.FanOut.{frames_for, frames_for-handle_topic_value}
use tarwyn.Registry.Invariant.{Distinct}
use tarwyn.Registry.State.{NtRegistry, Outbound, Routes, value}
use tarwyn.Registry.Values.{handle_timestamp, topic_id_for_pubuid, conform, accepts_value}
use tarwyn.Session.{Host, Mirrors, mirror, arrival_timestamp, route_message, route_values}
use tarwyn.Session.Mirror.{topic_name-handle_topic_value}
use tarwyn.Session.Steady.{
  IsSteady, IsSteady-refl, handle_topic_value-IsSteady, accepts_value-IsSteady,
  topic_id_for_pubuid-IsSteady, conform-IsSteady,
}
use tarwyn.Value.{Floats}

-- The frames that a message is to make for one client: an answer to its sender if it asks for the
-- time, else the value in its topic's type for a subscriber of the topic, if the type takes it.
unfoldable pub meant_frame : Floats → ℕ → ℕ → NtRegistry → ℕ → ValueMessage → List Outbound
meant_frame F sender now r client vm =
    if vm.topic_id == rtt_topic_id
    then (if sender == client then value (encode_once vm.value now rtt_topic_id) ∷ [] else [])
    else elim (topic_id_for_pubuid r sender vm.topic_id) [
      | none ↦ []
      | some id ↦
          let v = conform F r id vm.value in
          if accepts_value r id v && contains client (or_default [] id r.topic_subscribers)
          then value (encode_once v (arrival_timestamp vm.timestamp_micros now) id) ∷ []
          else []
    ]

-- The value that it is to bring to the read cache.
unfoldable pub meant_value : Floats → ℕ → NtRegistry → ValueMessage → Mirrors
meant_value F sender r vm =
    if vm.topic_id == rtt_topic_id then [] else elim (topic_id_for_pubuid r sender vm.topic_id) [
      | none ↦ []
      | some id ↦
          let v = conform F r id vm.value in mirror (accepts_value r id v) (topic_name id r) v
    ]

-- Those of all messages, in order, the i-th handled at `now i`.
unfoldable pub meant_frames :
    Floats → ℕ → (ℕ → ℕ) → ℕ → NtRegistry → ℕ → List ValueMessage → List Outbound
meant_frames F sender now i r client [] = []
meant_frames F sender now i r client (vm ∷ vms) =
    meant_frame F sender (now i) r client vm ++ meant_frames F sender now (i + 1) r client vms

unfoldable pub meant_values : Floats → ℕ → NtRegistry → List ValueMessage → Mirrors
meant_values F sender r [] = []
meant_values F sender r (vm ∷ vms) = meant_value F sender r vm ++ meant_values F sender r vms

-- No client is listed twice among the subscribers of a topic.
abbrev pub IsSetwise : NtRegistry → Type 0
IsSetwise r = (id : ℕ) → Distinct (or_default [] id r.topic_subscribers)

frames_for-append :
    (client : ℕ) (xs ys : Routes)
    → frames_for client (xs ++ ys) ≡ frames_for client xs ++ frames_for client ys
unfolding frames_for
frames_for-append client [] ys = refl
frames_for-append client ((j, o) ∷ xs) ys = ground (arith, frames_for-append client xs ys)

module _ (F : Floats) (sender : ℕ) where
  meant_frame-IsSteady :
      (now client : ℕ) (r s : NtRegistry) (vm : ValueMessage)
      → IsSteady r s
      → meant_frame F sender now s client vm ≡ meant_frame F sender now r client vm
  unfolding meant_frame
  meant_frame-IsSteady now client r s vm h =
      let known = topic_id_for_pubuid-IsSteady r s sender vm.topic_id h in
      elim (Option-cases (topic_id_for_pubuid r sender vm.topic_id)) [
        | inl e ↦ rw (known, e) refl
        | inr (id, e) ↦
            rw
              (
                known,
                e,
                conform-IsSteady F r s id vm.value h,
                accepts_value-IsSteady r s id (conform F r id vm.value) h,
                h.subscribers,
              )
              refl
      ]

  meant_value-IsSteady :
      (r s : NtRegistry) (vm : ValueMessage)
      → IsSteady r s
      → meant_value F sender s vm ≡ meant_value F sender r vm
  unfolding meant_value
  meant_value-IsSteady r s vm h =
      let known = topic_id_for_pubuid-IsSteady r s sender vm.topic_id h in
      elim (Option-cases (topic_id_for_pubuid r sender vm.topic_id)) [
        | inl e ↦ rw (known, e) refl
        | inr (id, e) ↦
            rw
              (
                known,
                e,
                conform-IsSteady F r s id vm.value h,
                accepts_value-IsSteady r s id (conform F r id vm.value) h,
                h.names id,
              )
              refl
      ]

  route_message-meant :
      (now : ℕ) (vm : ValueMessage) (r : NtRegistry)
      → IsSetwise r
      → IsSteady r (route_message F sender now vm r).0
        × ((client : ℕ)
            → frames_for client (route_message F sender now vm r).1.0
              ≡ meant_frame F sender now r client vm)
        × ((route_message F sender now vm r).1.1 ≡ meant_value F sender r vm)
  unfolding route_message meant_frame meant_value handle_timestamp frames_for
  route_message-meant now vm r d = elim (Bool-cases (vm.topic_id == rtt_topic_id)) [
    | inl e ↦ rw (e, route_message) (IsSteady-refl r, λ client. refl, refl)
    | inr e ↦ elim (Option-cases (topic_id_for_pubuid r sender vm.topic_id)) [
      | inl f ↦ rw (e, f, route_message) (IsSteady-refl r, λ client. refl, refl)
      | inr (id, f) ↦
          let v = conform F r id vm.value in
          let stamp = arrival_timestamp vm.timestamp_micros now in
          rw (e, f, route_message)
            (
              handle_topic_value-IsSteady id v stamp r,
              λ client. frames_for-handle_topic_value client id v stamp r (d id),
              ap (λ o. mirror (accepts_value r id v) o v)
                  (topic_name-handle_topic_value id id v stamp r),
            )
    ]
  ]

  meant_frames-IsSteady :
      (now : ℕ → ℕ) (i client : ℕ) (r s : NtRegistry) (vms : List ValueMessage)
      → IsSteady r s
      → meant_frames F sender now i s client vms ≡ meant_frames F sender now i r client vms
  unfolding meant_frames
  meant_frames-IsSteady now i client r s [] h = refl
  meant_frames-IsSteady now i client r s (vm ∷ vms) h =
      ap₂ (λ a b. a ++ b) (meant_frame-IsSteady (now i) client r s vm h)
        (meant_frames-IsSteady now (i + 1) client r s vms h)

  meant_values-IsSteady :
      (r s : NtRegistry) (vms : List ValueMessage)
      → IsSteady r s
      → meant_values F sender s vms ≡ meant_values F sender r vms
  unfolding meant_values
  meant_values-IsSteady r s [] h = refl
  meant_values-IsSteady r s (vm ∷ vms) h =
      ap₂ (λ a b. a ++ b) (meant_value-IsSteady r s vm h) (meant_values-IsSteady r s vms h)

module _ (host : Host) (sender : ℕ) where
  abbrev F : Floats
  F = host.env.floats

  -- Handled one after another, the messages of a frame make for each client just the frames that the
  -- registry before them means, and bring just those values to the cache, in order.
  pub route_values-meant :
      (i : ℕ) (vms : List ValueMessage) (r : NtRegistry)
      → IsSetwise r
      → ((client : ℕ)
          → frames_for client (route_values host sender i vms r).1.0
            ≡ meant_frames F sender host.now i r client vms)
        × ((route_values host sender i vms r).1.1 ≡ meant_values F sender r vms)
  unfolding route_values meant_frames meant_values frames_for
  route_values-meant i [] r d = (λ client. refl, refl)
  route_values-meant i (vm ∷ vms) r d =
      let (steady, frames, seen) = route_message-meant F sender (host.now i) vm r d in
      let s = (route_message F sender (host.now i) vm r).0 in
      let kept : IsSetwise s =
        λ id. subst (λ m. Distinct (or_default [] id m)) (sym steady.subscribers) (d id) in
      let (more, rest) = route_values-meant (i + 1) vms s kept in
      (
        λ client.
            frames_for-append client (route_message F sender (host.now i) vm r).1.0
              (route_values host sender (i + 1) vms s).1.0
            ∙ ap₂ (λ a b. a ++ b) (frames client)
                (more client
                  ∙ meant_frames-IsSteady F sender host.now (i + 1) client r s vms steady),
        ap₂ (λ a b. a ++ b) seen (rest ∙ meant_values-IsSteady F sender r s vms steady),
      )
