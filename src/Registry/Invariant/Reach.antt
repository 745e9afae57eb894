-- ===== src/Registry/Invariant/Reach.antt =====
-- Connections, restored topics, and every state that the registry can reach.
use tarwyn.Base.{
  ℕ, ◌≡◌, refl, Bool, none, some, List, [], ◌∷◌, nat_eq, text_eq, Text, inl, inr, Option-cases,
  option_map-eq-some, subst,
}
use tarwyn.Base.Assoc.{lookup}
use tarwyn.Json.{Fields}
use tarwyn.Registry.Core.{add_topic}
use tarwyn.Registry.Invariant.{IsValid}
use tarwyn.Registry.Invariant.Handlers.{
  ensure_client-IsValid, modify_topic-IsValid, handle_publish-IsValid, handle_unpublish-IsValid,
  handle_subscribe-IsValid, handle_unsubscribe-IsValid, handle_value-IsValid,
  handle_upsert_value-IsValid, handle_setproperties-IsValid, handle_unannounce-IsValid,
  set_retained-IsValid,
}
use tarwyn.Registry.Invariant.Parts.{
  Keeps, either-IsValid, delete_topic-IsValid, delete_topic_if_exists-IsValid,
  update_meta_clients-IsValid, update_meta_clientpub-IsValid, update_meta_clientsub-IsValid,
  update_meta_serversub-IsValid, update_meta_serverpub-IsValid, update_meta_sub_for-IsValid,
  update_meta_pub-IsValid, each_name-IsValid,
}
use tarwyn.Registry.Invariant.Steps.{add_topic-IsValid}
use tarwyn.Registry.Lifecycle.{
  register_client, set_conn_info, dedup_name, dedup_client_name, on_connect, drop_publishers,
  delete_orphans, forget_name, release_client_name, on_disconnect, PersistentTopic, restored_topic,
  restore_entries, restore_persistent,
}
use tarwyn.Registry.Properties.{set_retained}
use tarwyn.Registry.Publish.{handle_publish, handle_unpublish, handle_unannounce}
use tarwyn.Registry.Properties.{handle_setproperties}
use tarwyn.Registry.State.{NtRegistry, Routes, Env, new, sync_properties}
use tarwyn.Registry.Subscribe.{handle_subscribe, handle_unsubscribe}
use tarwyn.Registry.Values.{handle_value, handle_upsert_value}
use tarwyn.Value.{Value}

register_client-IsValid :
    (env : Env) (client : ℕ) (name conn_info : Text)
    → Keeps (register_client env client name conn_info)
unfolding register_client set_conn_info
register_client-IsValid env client name conn_info r v = update_meta_serverpub-IsValid env _ (
    update_meta_serversub-IsValid env _ (
      update_meta_clientsub-IsValid env client _ (
        update_meta_clientpub-IsValid env client _ (
          update_meta_clients-IsValid env _
            (informed (ensure_client-IsValid client _ (record { catalog = v.catalog })))))))
  where
    informed : {s : NtRegistry} → IsValid s → IsValid (set_conn_info client conn_info s)
    informed w = record { catalog = w.catalog }

drop_publishers-IsValid :
    (ids : List ℕ) (r : NtRegistry) → IsValid r → IsValid (drop_publishers ids r)
unfolding drop_publishers
drop_publishers-IsValid [] r v = v
drop_publishers-IsValid (id ∷ ids) r v =
    drop_publishers-IsValid ids _ (modify_topic-IsValid id _ (λ s. refl) v)

delete_orphans-IsValid : (ids : List ℕ) → Keeps (delete_orphans ids)
unfolding delete_orphans
delete_orphans-IsValid [] r v = v
delete_orphans-IsValid (id ∷ ids) r v = elim (Option-cases (lookup id r.topics)) [
  | inl e ↦ rw (e, delete_orphans) (delete_orphans-IsValid ids r v)
  | inr (t, e) ↦
      rw (e, delete_orphans)
        (delete_orphans-IsValid ids _ (either-IsValid _ _ _ (delete_topic-IsValid r id v) v))
]

forget_name-IsValid : (client : ℕ) (r : NtRegistry) → IsValid r → IsValid (forget_name client r)
unfolding forget_name release_client_name
forget_name-IsValid client r v = elim (Option-cases (lookup client r.client_name_by_id)) [
  | inl e ↦ rw (e, forget_name) v
  | inr (name, e) ↦
      rw (e, forget_name)
        (delete_topic_if_exists-IsValid _ _
          (delete_topic_if_exists-IsValid _ _ (record { catalog = v.catalog })))
]

on_disconnect-IsValid : (env : Env) (client : ℕ) → Keeps (on_disconnect env client)
unfolding on_disconnect
on_disconnect-IsValid env client r v = each_name-IsValid _ (update_meta_pub-IsValid env) _ _ (
    update_meta_sub_for-IsValid env _ _ (
      update_meta_clients-IsValid env _ (
        delete_orphans-IsValid _ _ (
          drop_publishers-IsValid _ _
            (forget_name-IsValid client _ (record { catalog = v.catalog }))))))

restore_entries-IsValid :
    (ts : ℕ) (ps : List PersistentTopic) (r : NtRegistry)
    → IsValid r
    → IsValid (restore_entries ts ps r)
unfolding restore_entries
restore_entries-IsValid ts [] r v = v
restore_entries-IsValid ts (p ∷ ps) r v = elim (Option-cases (lookup p.name r.by_name)) [
  | inl e ↦ rw (e, restore_entries) (restore_entries-IsValid ts ps _ (restored e))
  | inr (id, e) ↦ rw (e, restore_entries) (restore_entries-IsValid ts ps r v)
]
  where
    restored : lookup p.name r.by_name ≡ none → IsValid (add_topic (restored_topic ts p) r).1
    restored e =
        unfold restored_topic sync_properties in add_topic-IsValid (restored_topic ts p) v e

restore_persistent-IsValid :
    (ps : List PersistentTopic) (ts : ℕ) (r : NtRegistry)
    → IsValid r
    → IsValid (restore_persistent ps ts r)
unfolding restore_persistent
restore_persistent-IsValid ps ts r v = record {
  catalog = (restore_entries-IsValid ts ps r v).catalog;
}

-- One call on the registry. Calls come one at a time, since the server holds its lock.
pub data Step (env : Env) (r : NtRegistry) : NtRegistry → Type 0 where
  publishes :
      (client : ℕ) (name : Text) (pubuid : ℕ) (type_str : Text) (properties : Fields)
      → Step env r (handle_publish env client name pubuid type_str properties r).0
  unpublishes : (client pubuid : ℕ) → Step env r (handle_unpublish env client pubuid r).0
  subscribes :
      (client : ℕ) (patterns : List Text) (subuid : ℕ) (prefix topics_only : Bool)
      (options : Fields)
      → Step env r (handle_subscribe env client patterns subuid prefix topics_only options r).0
  unsubscribes : (client subuid : ℕ) → Step env r (handle_unsubscribe env client subuid r).0
  sends :
      (client pubuid : ℕ) (v : Value) (ts : ℕ) → Step env r (handle_value client pubuid v ts r).0
  upserts : (name : Text) (v : Value) (ts : ℕ) → Step env r (handle_upsert_value name v ts r).0
  sets_properties :
      (client : ℕ) (name : Text) (update : Fields)
      → Step env r (handle_setproperties client name update r).0
  unannounces : (client : ℕ) (name : Text) → Step env r (handle_unannounce env client name r).0
  retains : (name : Text) (retained : Bool) → Step env r (set_retained name retained r)
  connects :
      (client : ℕ) (base conn_info : Text) {p : NtRegistry × Routes}
      → on_connect env client base conn_info r ≡ some p
      → Step env r p.0
  disconnects : (client : ℕ) → Step env r (on_disconnect env client r).0
  restores :
      (entries : List PersistentTopic) (ts : ℕ) → Step env r (restore_persistent entries ts r)

pub data Reach (env : Env) : NtRegistry → Type 0 where
  start : Reach env new
  next : {r s : NtRegistry} → Reach env r → Step env r s → Reach env s

on_connect-IsValid :
    (env : Env) (client : ℕ) (base conn_info : Text) (r : NtRegistry) (p : NtRegistry × Routes)
    → on_connect env client base conn_info r ≡ some p
    → IsValid r
    → IsValid p.0
unfolding on_connect dedup_client_name
on_connect-IsValid env client base conn_info r p e v =
    let (q, taken, done) = option_map-eq-some _ (dedup_client_name base r) e in
    let (n, free, named) = option_map-eq-some _ (dedup_name base r.client_names) taken in
    subst (λ z. IsValid z.0) done
      (register_client-IsValid env client q.0 conn_info q.1
        (subst (λ z. IsValid z.1) named (record { catalog = v.catalog })))

pub Step-IsValid : {env : Env} {r s : NtRegistry} → Step env r s → IsValid r → IsValid s
Step-IsValid (publishes client name pubuid type_str properties) v =
    handle_publish-IsValid _ client name pubuid type_str properties _ v
Step-IsValid (unpublishes client pubuid) v = handle_unpublish-IsValid _ client pubuid _ v
Step-IsValid (subscribes client patterns subuid prefix topics_only options) v =
    handle_subscribe-IsValid _ client patterns subuid prefix topics_only options _ v
Step-IsValid (unsubscribes client subuid) v = handle_unsubscribe-IsValid _ client subuid _ v
Step-IsValid (sends client pubuid x ts) v = handle_value-IsValid client pubuid x ts _ v
Step-IsValid (upserts name x ts) v = handle_upsert_value-IsValid name x ts _ v
Step-IsValid (sets_properties client name update) v =
    handle_setproperties-IsValid client name update _ v
Step-IsValid (unannounces client name) v = handle_unannounce-IsValid _ client name _ v
Step-IsValid (retains name retained) v = set_retained-IsValid name retained _ v
Step-IsValid (connects client base conn_info e) v =
    on_connect-IsValid _ client base conn_info _ _ e v
Step-IsValid (disconnects client) v = on_disconnect-IsValid _ client _ v
Step-IsValid (restores entries ts) v = restore_persistent-IsValid entries ts _ v

new-IsValid : IsValid new
unfolding lookup
new-IsValid = record {
  catalog = record {
    named = λ n id h. cc;
    listed = λ id t h. cc;
    below = λ id t h. cc;
    free_below = λ id h. cc;
    free_dead = λ id h. cc;
    free_once = tt;
  };
}

-- In every state that the registry reaches from the empty one, by any sequence of calls, the name
-- table and the topic table are inverse to one another, every topic's id is below the next new one,
-- and the ids free to be given out again are distinct and belong to no topic.
pub Reach-IsValid : {env : Env} {r : NtRegistry} → Reach env r → IsValid r
Reach-IsValid start = new-IsValid
Reach-IsValid (next reached step) = Step-IsValid step (Reach-IsValid reached)
