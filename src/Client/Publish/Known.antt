-- ===== src/Client/Publish/Known.antt =====
-- The frames that a client keeps, against the channels and subscriptions that it has.
use tarwyn.Base.{
  ltb, subst, ℕ, ◌+◌, ◌%◌, ◌^◌, ◌<◌, ◌≡◌, refl, Option, none, some, [], ◌∷◌, Text, ◌==◌, nat_eq,
  text_eq, if◌then◌else◌, option_map, length, arith, ◌⊎◌, inl, inr, ap, sym, ◌∙◌, Bool-cases,
  Option-cases, text_eqb_iff,
}
use tarwyn.Base.Assoc.{Assoc, lookup, insert, remove, lookup-insert, lookup-remove, length-insert}
use tarwyn.Base.Bytes.{Bytes}
use tarwyn.Client.Publish.{
  Book, new_book, publish_key, schema_key, subscribe_key, remember, frame_of, declared_or,
  number_channel,
}
use tarwyn.Json.{Json, Fields, end}
use tarwyn.Message.{publish, subscribe}
use tarwyn.Value.{Value}
use tarwyn.Client.Publish.Keys.{Numbered, Numbered-insert, subscribe_key_eqb}

module _ (print : Json → Text) where
  -- A channel has no id and no frame to replay; or it has an id, and the frame that is replayed
  -- publishes it under that id.
  abbrev pub AnnouncedAs : Text → Option ℕ → Option Bytes → Type 0
  AnnouncedAs channel id frame =
      ((id ≡ none) × (frame ≡ none))
      ⊎ ((pubuid : ℕ) × (type : Text) × (properties : Fields) × (id ≡ some pubuid)
          × (frame ≡ some (frame_of print (publish channel pubuid type properties))))

  abbrev pub Announced : Book → Text → Type 0
  Announced b channel =
      AnnouncedAs channel (lookup channel b.pubuids) (lookup (publish_key channel) b.session)

  abbrev pub subscribe_frame : ℕ → Option Text → Option Bytes
  subscribe_frame subuid =
      option_map (λ channel. frame_of print (subscribe (channel ∷ []) subuid end))

  -- `subs` is the channel of each subscription that has not ended.
  pub record Known (subs : Assoc ℕ Text) (b : Book) : Type 0 where
    pub announced : (channel : Text) → Announced b channel
    pub subscribed :
        (subuid : ℕ)
        → lookup (subscribe_key subuid) b.session ≡ subscribe_frame subuid (lookup subuid subs)
    pub next : b.next_pubuid ≡ length b.pubuids % 2 ^ 32
    pub numbered : (2 ^ 32 < length b.pubuids) ⊎ Numbered b.pubuids

  subscription_frame :
      (i j : ℕ) (channel : Text) (frame : Option Bytes) (known : Option Text)
      → frame ≡ subscribe_frame j known
      → (if i == j then some (frame_of print (subscribe (channel ∷ []) i end)) else frame)
        ≡ subscribe_frame j (if i == j then some channel else known)
  subscription_frame i j channel frame known h = elim (Bool-cases (i == j)) [
    | inl e ↦ rw e (
        ap (λ n. some (frame_of print (subscribe (channel ∷ []) n end))) ((nat_eq.eqb_iff i j).0 e))
    | inr e ↦ rw e h
  ]

  no_subscription_frame :
      (i j : ℕ) (frame : Option Bytes) (known : Option Text)
      → frame ≡ subscribe_frame j known
      → (if i == j then none else frame) ≡ subscribe_frame j (if i == j then none else known)
  no_subscription_frame i j frame known h = elim (Bool-cases (i == j)) [
    | inl e ↦ rw e
    | inr e ↦ rw e h
  ]

  pub remember_subscription :
      (subuid : ℕ) (channel : Text) (subs : Assoc ℕ Text) (b : Book)
      → Known subs b
      → Known
          (insert subuid channel subs)
          (remember (subscribe_key subuid) (frame_of print (subscribe (channel ∷ []) subuid end)) b)
  unfolding remember
  remember_subscription subuid channel subs b h =
      let frame = frame_of print (subscribe (channel ∷ []) subuid end) in
      record {
        announced = λ a.
            subst (AnnouncedAs a (lookup a b.pubuids))
              (sym (lookup-insert (publish_key a) (subscribe_key subuid) frame b.session))
              (h.announced a);
        subscribed = λ j.
            lookup-insert (subscribe_key j) (subscribe_key subuid) frame b.session
            ∙ ap (λ t. if t then some frame else lookup (subscribe_key j) b.session)
                (subscribe_key_eqb subuid j)
            ∙ subscription_frame subuid j channel (lookup (subscribe_key j) b.session)
                (lookup j subs) (h.subscribed j)
            ∙ ap (subscribe_frame j) (sym (lookup-insert j subuid channel subs));
        next = h.next;
        numbered = h.numbered;
      }

  pub forget_subscription :
      (subuid : ℕ) (subs : Assoc ℕ Text) (b : Book)
      → Known subs b
      → Known (remove subuid subs) (record b { session = remove (subscribe_key subuid) b.session })
  forget_subscription subuid subs b h = record {
    announced = λ a.
        subst (AnnouncedAs a (lookup a b.pubuids))
          (sym (lookup-remove (publish_key a) (subscribe_key subuid) b.session)) (h.announced a);
    subscribed = λ j.
        lookup-remove (subscribe_key j) (subscribe_key subuid) b.session
        ∙ ap (λ t. if t then none else lookup (subscribe_key j) b.session)
            (subscribe_key_eqb subuid j)
        ∙ no_subscription_frame subuid j (lookup (subscribe_key j) b.session) (lookup j subs)
            (h.subscribed j)
        ∙ ap (subscribe_frame j) (sym (lookup-remove j subuid subs));
    next = h.next;
    numbered = h.numbered;
  }

  pub remember_schema :
      (channel : Text) (frame : Bytes) (subs : Assoc ℕ Text) (b : Book)
      → Known subs b
      → Known subs (remember (schema_key channel) frame b)
  unfolding remember
  remember_schema channel frame subs b h = record {
    announced = λ a.
        subst (AnnouncedAs a (lookup a b.pubuids))
          (sym (lookup-insert (publish_key a) (schema_key channel) frame b.session))
          (h.announced a);
    subscribed =
        λ j. lookup-insert (subscribe_key j) (schema_key channel) frame b.session ∙ h.subscribed j;
    next = h.next;
    numbered = h.numbered;
  }

  announced_now :
      (channel a type : Text) (id : ℕ) (properties : Fields) (known : Option ℕ)
      (frame : Option Bytes)
      → AnnouncedAs a known frame
      → AnnouncedAs a (if channel == a then some id else known) (
          if channel == a
          then some (frame_of print (publish channel id type properties))
          else frame)
  announced_now channel a type id properties known frame h = elim (Bool-cases (channel == a)) [
    | inr e ↦ rw e h
    | inl e ↦
        let same = (text_eqb_iff channel a).0 e in
        rw e (
          inr (
            id,
            type,
            properties,
            refl,
            ap (λ c. some (frame_of print (publish c id type properties))) same,
          ))
  ]

  number_new :
      (channel type : Text) (properties : Fields) (subs : Assoc ℕ Text) (b : Book)
      → Known subs b
      → lookup channel b.pubuids ≡ none
      → Known subs (
          remember
            (publish_key channel)
            (frame_of print (publish channel b.next_pubuid type properties))
            (record b {
              next_pubuid = (b.next_pubuid + 1) % 2 ^ 32;
              pubuids = insert channel b.next_pubuid b.pubuids;
            }))
  unfolding remember
  number_new channel type properties subs b h e =
      let frame = frame_of print (publish channel b.next_pubuid type properties) in
      let longer = length-insert channel b.next_pubuid b.pubuids in
      record {
        announced = λ a.
            subst
              (λ x.
                AnnouncedAs a x
                  (lookup (publish_key a) (insert (publish_key channel) frame b.session)))
              (sym (lookup-insert a channel b.next_pubuid b.pubuids))
              (subst
                (AnnouncedAs a (if channel == a then some b.next_pubuid else lookup a b.pubuids))
                (sym (lookup-insert (publish_key a) (publish_key channel) frame b.session))
                (announced_now channel a type b.next_pubuid properties (lookup a b.pubuids)
                  (lookup (publish_key a) b.session) (h.announced a)));
        subscribed = λ j.
            lookup-insert (subscribe_key j) (publish_key channel) frame b.session ∙ h.subscribed j;
        next = ground (arith, longer, e, h.next);
        numbered = elim h.numbered [
          | inl many ↦ inl (ground (arith, longer, e, many))
          | inr few ↦ elim (Bool-cases (ltb (length b.pubuids) (2 ^ 32))) [
            | inr full ↦ inl (ground (arith, longer, e, full))
            | inl room ↦
                let same : length b.pubuids ≡ b.next_pubuid = ground (arith, room, h.next) in
                inr (
                  subst (λ n. Numbered (insert channel n b.pubuids)) same
                    (Numbered-insert channel b.pubuids e few))
          ]
        ];
      }

  pub number_channel-Known :
      (channel : Text) (v : Value) (declared : Option Text) (properties : Fields)
      (subs : Assoc ℕ Text) (b : Book)
      → Known subs b
      → Known subs (number_channel print channel v declared properties b).0
  unfolding number_channel
  number_channel-Known channel v declared properties subs b h =
      elim (Option-cases (lookup channel b.pubuids)) [
        | inr (p, e) ↦ rw (e, number_channel) h
        | inl e ↦
            rw (e, number_channel)
              (number_new channel (declared_or print declared v) properties subs b h e)
      ]

  pub new-Known : Known [] new_book
  unfolding new_book lookup
  new-Known = record {
    announced = λ a. inl (refl, refl);
    subscribed = λ j. refl;
    next = refl;
    numbered = inr (record { below = λ a p e. absurd cc; distinct = λ a b p e f. absurd cc });
  }
