-- ===== src/Registry/Invariant/Handlers.antt =====
-- Every handler keeps the topic table valid.
use tarwyn.Base.{
  ℕ, ◌≡◌, refl, Bool, true, false, none, List, [], ◌∷◌, nat_eq, text_eq, Text, inl, inr,
  Option-cases, if◌then◌else◌,
}
use tarwyn.Base.Assoc.{Assoc, lookup}
use tarwyn.Json.{Fields}
use tarwyn.Registry.Clients.{subs_of, pubs_of, set_pubs, set_subs}
use tarwyn.Registry.Core.{ensure_client, add_announced}
use tarwyn.Registry.Invariant.{IsValid}
use tarwyn.Registry.Invariant.Parts.{
  Keeps, if-IsValid, either-IsValid, add_subscriber-IsValid, announce_once-IsValid,
  announce_to_matching-IsValid, delete_topic-IsValid, handle_topic_value-IsValid,
  update_meta_clientpub-IsValid, update_meta_clientsub-IsValid, update_meta_pub-IsValid,
  update_meta_sub_for-IsValid,
}
use tarwyn.Registry.Invariant.Steps.{add_topic-IsValid, modify-IsValid}
use tarwyn.Registry.Properties.{
  modify_topic, updated_topic, update_topic, handle_setproperties, set_retained,
}
use tarwyn.Registry.Publish.{
  release_publisher, published_topic, create_published, attach_publisher, publish_topic,
  handle_publish, handle_unpublish, handle_unannounce,
}
use tarwyn.Registry.State.{NtRegistry, TopicState, Subscription, Routes, Env, sync_properties}
use tarwyn.Registry.Subscribe.{
  leave_topics, drop_subscription, join_topic, join_topics, handle_subscribe, handle_unsubscribe,
}
use tarwyn.Registry.Values.{topic_id_for_pubuid, handle_value, handle_upsert_value, upserted_topic}
use tarwyn.Value.{Value}

pub ensure_client-IsValid :
    (client : ℕ) (r : NtRegistry) → IsValid r → IsValid (ensure_client r client)
unfolding ensure_client
ensure_client-IsValid client r v = elim (Option-cases (lookup client r.clients)) [
  | inl e ↦ rw (e, ensure_client) (record { catalog = v.catalog })
  | inr (cs, e) ↦ rw (e, ensure_client) v
]

set_pubs-IsValid :
    {r : NtRegistry} (f : Assoc ℕ ℕ → Assoc ℕ ℕ) (client : ℕ)
    → IsValid r
    → IsValid (set_pubs f client r)
unfolding set_pubs
set_pubs-IsValid f client v = record { catalog = v.catalog }

set_subs-IsValid :
    {r : NtRegistry} (f : Assoc ℕ Subscription → Assoc ℕ Subscription) (client : ℕ)
    → IsValid r
    → IsValid (set_subs f client r)
unfolding set_subs
set_subs-IsValid f client v = record { catalog = v.catalog }

pub modify_topic-IsValid :
    {r : NtRegistry} (id : ℕ) (f : TopicState → TopicState)
    → ((t : TopicState) → (f t).name ≡ t.name)
    → IsValid r
    → IsValid (modify_topic id f r)
unfolding modify_topic
modify_topic-IsValid id f keeps v = record { catalog = modify-IsValid id f keeps v }

Keeps-either :
    (b : Bool) (f g : NtRegistry → NtRegistry × Routes)
    → Keeps f
    → Keeps g
    → Keeps (if b then f else g)
Keeps-either true f g k l = k
Keeps-either false f g k l = l

release_publisher-IsValid : (env : Env) (id : ℕ) → Keeps (release_publisher env id)
unfolding release_publisher
release_publisher-IsValid env id r v = elim (Option-cases (lookup id r.topics)) [
  | inl e ↦ rw (e, release_publisher) v
  | inr (t, e) ↦
      rw (e, release_publisher)
        (update_meta_pub-IsValid env t.name _ (
          either-IsValid _ _ _ (delete_topic-IsValid _ id (modify_topic-IsValid id _ (λ s. refl) v))
            (modify_topic-IsValid id _ (λ s. refl) v)))
]

attach_publisher-IsValid :
    (env : Env) (client : ℕ) (name : Text) (pubuid id : ℕ) (is_new : Bool)
    → Keeps (attach_publisher env client name pubuid id is_new)
unfolding attach_publisher add_announced
attach_publisher-IsValid env client name pubuid id is_new r v = update_meta_pub-IsValid env name _ (
    update_meta_clientpub-IsValid env client _ (
      Keeps-either _ _ _ (release_publisher-IsValid env _) (λ s w. w) _
        (Keeps-either is_new _ _ (announce_to_matching-IsValid id name) (λ s w. w) _
          (announced (
            if-IsValid _ _ _ (modify_topic-IsValid id _ (λ s. refl) (set_pubs-IsValid _ client v))
              (set_pubs-IsValid _ client v))))))
  where
    announced : {s : NtRegistry} → IsValid s → IsValid (add_announced client id s).0
    announced w = record { catalog = w.catalog }

create_published-IsValid :
    {r : NtRegistry} (name type_str : Text) (properties : Fields)
    → IsValid r
    → lookup name r.by_name ≡ none
    → IsValid (create_published name type_str properties r).1
unfolding create_published published_topic sync_properties
create_published-IsValid name type_str properties v e = record {
  catalog = (add_topic-IsValid _ v e).catalog;
}

publish_topic-IsValid :
    (env : Env) (client : ℕ) (name : Text) (pubuid : ℕ) (type_str : Text) (properties : Fields)
    → Keeps (publish_topic env client name pubuid type_str properties)
unfolding publish_topic
publish_topic-IsValid env client name pubuid type_str properties r v =
    elim (Option-cases (lookup name r.by_name)) [
      | inr (id, e) ↦
          rw (e, publish_topic) (attach_publisher-IsValid env client name pubuid id false r v)
      | inl e ↦
          rw (e, publish_topic)
            (either-IsValid _ _ _ v (
              attach_publisher-IsValid env client name pubuid _ true _
                (create_published-IsValid name type_str properties v e)))
    ]

pub handle_publish-IsValid :
    (env : Env) (client : ℕ) (name : Text) (pubuid : ℕ) (type_str : Text) (properties : Fields)
    → Keeps (handle_publish env client name pubuid type_str properties)
unfolding handle_publish
handle_publish-IsValid env client name pubuid type_str properties r v =
    let v0 = ensure_client-IsValid client r v in
    either-IsValid _ _ _ v0 (publish_topic-IsValid env client name pubuid type_str properties _ v0)

pub handle_unpublish-IsValid :
    (env : Env) (client pubuid : ℕ) → Keeps (handle_unpublish env client pubuid)
unfolding handle_unpublish set_pubs
handle_unpublish-IsValid env client pubuid r v =
    elim (Option-cases (lookup pubuid (pubs_of r client))) [
      | inl e ↦ rw (e, handle_unpublish) v
      | inr (id, e) ↦ elim (Option-cases (lookup id r.topics)) [
        | inl f ↦ rw (e, f, handle_unpublish) (record { catalog = v.catalog })
        | inr (t, f) ↦
            rw (e, f, handle_unpublish)
              (update_meta_clientpub-IsValid env client _
                (release_publisher-IsValid env id _ (record { catalog = v.catalog })))
      ]
    ]

leave_topics-IsValid :
    (client : ℕ) (ids : List ℕ) (r : NtRegistry) → IsValid r → IsValid (leave_topics client ids r)
unfolding leave_topics
leave_topics-IsValid client [] r v = v
leave_topics-IsValid client (id ∷ ids) r v =
    leave_topics-IsValid client ids _ (record { catalog = v.catalog })

drop_subscription-IsValid :
    (client subuid : ℕ) (r : NtRegistry) → IsValid r → IsValid (drop_subscription client subuid r).0
unfolding drop_subscription
drop_subscription-IsValid client subuid r v =
    elim (Option-cases (lookup subuid (subs_of r client))) [
      | inl e ↦ rw (e, drop_subscription) v
      | inr (sub, e) ↦
          rw (e, drop_subscription)
            (leave_topics-IsValid client sub.matched _ (set_subs-IsValid _ client v))
    ]

join_topics-IsValid :
    (client : ℕ) (topics_only : Bool) (ids : List ℕ) → Keeps (join_topics client topics_only ids)
unfolding join_topics join_topic
join_topics-IsValid client topics_only [] r v = v
join_topics-IsValid client topics_only (id ∷ ids) r v =
    join_topics-IsValid client topics_only ids _ (
      announce_once-IsValid client id _
        (if-IsValid topics_only _ _ v (add_subscriber-IsValid client id v)))

pub handle_subscribe-IsValid :
    (env : Env) (client : ℕ) (patterns : List Text) (subuid : ℕ) (prefix topics_only : Bool)
    (options : Fields)
    → Keeps (handle_subscribe env client patterns subuid prefix topics_only options)
unfolding handle_subscribe
handle_subscribe-IsValid env client patterns subuid prefix topics_only options r v =
    let v0 = ensure_client-IsValid client r v in
    either-IsValid _ _ _ v0 (
      update_meta_sub_for-IsValid env _ _ (
        update_meta_clientsub-IsValid env client _ (
          set_subs-IsValid _ client (
            join_topics-IsValid client topics_only _ _
              (drop_subscription-IsValid client subuid _ v0)))))

pub handle_unsubscribe-IsValid :
    (env : Env) (client subuid : ℕ) → Keeps (handle_unsubscribe env client subuid)
unfolding handle_unsubscribe
handle_unsubscribe-IsValid env client subuid r v =
    update_meta_sub_for-IsValid env _ _
      (update_meta_clientsub-IsValid env client _ (drop_subscription-IsValid client subuid r v))

pub handle_value-IsValid :
    (client pubuid : ℕ) (x : Value) (ts : ℕ) → Keeps (handle_value client pubuid x ts)
unfolding handle_value
handle_value-IsValid client pubuid x ts r v =
    elim (Option-cases (topic_id_for_pubuid r client pubuid)) [
      | inl e ↦ rw (e, handle_value) v
      | inr (id, e) ↦ rw (e, handle_value) (handle_topic_value-IsValid id x ts r v)
    ]

pub handle_upsert_value-IsValid :
    (name : Text) (x : Value) (ts : ℕ) → Keeps (handle_upsert_value name x ts)
unfolding handle_upsert_value upserted_topic
handle_upsert_value-IsValid name x ts r v = elim (Option-cases (lookup name r.by_name)) [
  | inr (id, e) ↦ rw (e, handle_upsert_value) (handle_topic_value-IsValid id x ts r v)
  | inl e ↦
      rw (e, handle_upsert_value)
        (either-IsValid _ _ _ v (handle_topic_value-IsValid _ x ts _ (add_topic-IsValid _ v e)))
]

pub handle_setproperties-IsValid :
    (client : ℕ) (name : Text) (update : Fields) → Keeps (handle_setproperties client name update)
unfolding handle_setproperties
handle_setproperties-IsValid client name update r v = elim (Option-cases (lookup name r.by_name)) [
  | inl e ↦ rw (e, handle_setproperties) v
  | inr (id, e) ↦ rw (e, handle_setproperties) (updated id)
]
  where
    updated : (id : ℕ) → IsValid (update_topic update id r)
    updated id = elim (Option-cases (lookup id r.topics)) [
      | inl e ↦ unfold update_topic in rw (e, update_topic) v
      | inr (t, e) ↦
          unfold update_topic updated_topic sync_properties in
          rw (e, update_topic)
            (record {
              catalog = (modify_topic-IsValid id (updated_topic update) (λ s. refl) v).catalog;
            })
    ]

pub handle_unannounce-IsValid :
    (env : Env) (client : ℕ) (name : Text) → Keeps (handle_unannounce env client name)
unfolding handle_unannounce
handle_unannounce-IsValid env client name r v = elim (Option-cases (lookup name r.by_name)) [
  | inl e ↦ rw (e, handle_unannounce) v
  | inr (id, e) ↦
      rw (e, handle_unannounce)
        (update_meta_pub-IsValid env name _ (
          update_meta_clientpub-IsValid env client _
            (delete_topic-IsValid _ id (set_pubs-IsValid _ client v))))
]

pub set_retained-IsValid :
    (name : Text) (retained : Bool) (r : NtRegistry)
    → IsValid r
    → IsValid (set_retained name retained r)
unfolding set_retained
set_retained-IsValid name retained r v = elim (Option-cases (lookup name r.by_name)) [
  | inl e ↦ rw (e, set_retained) v
  | inr (id, e) ↦ rw (e, set_retained) (modify_topic-IsValid id _ (λ s. refl) v)
]
