-- ===== src/Registry/Subscribe.antt =====
-- `handle_subscribe` and `handle_unsubscribe`.
use tarwyn.Base.{
  ℕ, Bool, not, ◌&&◌, none, some, List, [], ◌∷◌, retain, leb, Text, ◌==◌, nat_eq, text_eq,
  if◌then◌else◌,
}
use tarwyn.Base.Assoc.{Assoc, lookup, insert, remove, modify}
use tarwyn.Json.{Fields}
use tarwyn.Registry.Core.{ensure_client, add_subscriber, announce_once, encode_once}
use tarwyn.Registry.Meta.{update_meta_clientsub, update_meta_sub_for}
use tarwyn.Registry.State.{
  NtRegistry, Subscription, value, Routes, Env, ◌▹◌, quietly, sub_visible_to, sub_matches,
  insert_all,
}
use tarwyn.Registry.Clients.{subs_of, over_cap, set_subs}

-- The client leaves the subscribers of each topic.
unfoldable pub leave_topics : ℕ → List ℕ → NtRegistry → NtRegistry
leave_topics client [] r = r
leave_topics client (id ∷ ids) r = leave_topics client ids (record r {
  topic_subscribers = modify id (retain (λ c. not (c == client))) r.topic_subscribers;
})

-- `cs.subs.remove(&subuid)` with what follows it: the registry and the topics touched.
unfoldable pub drop_subscription : ℕ → ℕ → NtRegistry → NtRegistry × List ℕ
drop_subscription client subuid r = elim (lookup subuid (subs_of r client)) [
  | none ↦ (r, [])
  | some sub ↦ (leave_topics client sub.matched (set_subs (remove subuid) client r), sub.matched)
]

abbrev insert_sorted : ℕ → List ℕ → List ℕ
insert_sorted x [] = x ∷ []
insert_sorted x (y ∷ ys) = if leb x y then x ∷ y ∷ ys else y ∷ insert_sorted x ys

-- `sort_unstable`
abbrev sort : List ℕ → List ℕ
sort [] = []
sort (x ∷ xs) = insert_sorted x (sort xs)

unfoldable pub matched_in : Subscription → Assoc Text ℕ → List ℕ
matched_in sub [] = []
matched_in sub ((nm, id) ∷ rest) =
    if sub_visible_to sub nm && sub_matches sub nm
    then id ∷ matched_in sub rest
    else matched_in sub rest

unfoldable pub matched_ids : Subscription → NtRegistry → List ℕ
matched_ids sub r = sort (matched_in sub r.by_name)

-- The retained value of a topic, for a late subscriber.
unfoldable pub retained_route : ℕ → ℕ → NtRegistry → Routes
retained_route client id r = elim (lookup id r.topics) [
  | none ↦ []
  | some t ↦
      if t.cached
      then elim t.current [
        | none ↦ []
        | some stamped ↦ (client, value (encode_once stamped.value stamped.ts_micros id)) ∷ []
      ]
      else []
]

unfoldable pub join_topic : ℕ → Bool → ℕ → NtRegistry → NtRegistry × Routes
join_topic client topics_only id r =
    announce_once client id (if topics_only then r else add_subscriber client id r)
    ▹ (λ r'. (r', if topics_only then [] else retained_route client id r'))

unfoldable pub join_topics : ℕ → Bool → List ℕ → NtRegistry → NtRegistry × Routes
join_topics client topics_only [] r = (r, [])
join_topics client topics_only (id ∷ ids) r =
    join_topic client topics_only id r ▹ join_topics client topics_only ids

unfoldable pub handle_subscribe :
    Env → ℕ → List Text → ℕ → Bool → Bool → Fields → NtRegistry → NtRegistry × Routes
handle_subscribe env client patterns subuid prefix topics_only options r =
    let r0 = ensure_client r client in
    let (r1, left) = drop_subscription client subuid r0 in
    let sub : Subscription = record {
      patterns = patterns;
      prefix = prefix;
      topics_only = topics_only;
      matched = [];
      options = options;
    } in
    let ids = matched_ids sub r1 in
    if over_cap subuid (subs_of r0 client)
    then (r0, [])
    else (join_topics client topics_only ids r1
        ▹ (λ r2.
            quietly
              (set_subs (insert subuid (record sub { matched = insert_all ids [] })) client r2))
        ▹ update_meta_clientsub env client
        ▹ update_meta_sub_for env (insert_all ids left))

unfoldable pub handle_unsubscribe : Env → ℕ → ℕ → NtRegistry → NtRegistry × Routes
handle_unsubscribe env client subuid r =
    let (r1, touched) = drop_subscription client subuid r in
    update_meta_clientsub env client r1 ▹ update_meta_sub_for env touched
