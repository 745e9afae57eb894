-- ===== src/Server/Cache/Swap.antt =====
-- What compare-and-set does, and what a second request finds after it.
use tarwyn.Base.{
  ◌≡◌, refl, Bool, true, false, some, Text, text_eq, leb, length, is_some, ◌&&◌, ◌||◌, ltb, arith,
  Bool-cases, Option-cases, inl, inr, ◌⊎◌, ap,
}
use tarwyn.Kind.{Kind}
use tarwyn.Registry.State.{max_topics}
use tarwyn.Server.Cache.{
  Cache, read, CompareAndSet, flat, agree, matches, push_channel, compare_and_set,
}
use tarwyn.Server.Cache.Values.{HoldOne, read-push_channel}

module _ (same : Kind → Kind → Bool) where
  -- A request is granted if its expectation is met, it brings a value, and there is room.
  unfoldable pub grants : CompareAndSet → Cache → Bool
  grants c cached =
      matches same (read cached c.channel) c
      && is_some (flat c.value)
      && (is_some (read cached c.channel) || ltb (length cached) max_topics)

  pub compare_and_set_cases :
      (c : CompareAndSet) (cached : Cache)
      → ((k : Kind) × (grants c cached ≡ true)
          × (flat c.value ≡ some k)
          × (compare_and_set same c cached ≡ (push_channel c.channel k cached, (true, some k))))
        ⊎ ((grants c cached ≡ false)
            × (compare_and_set same c cached ≡ (cached, (false, read cached c.channel))))
  unfolding grants compare_and_set
  compare_and_set_cases c cached = elim (Bool-cases (matches same (read cached c.channel) c)) [
    | inl m ↦ elim (Option-cases (flat c.value)) [
      | inl e ↦ inr (rw (m, e) (refl, refl))
      | inr (k, e) ↦ elim (Option-cases (read cached c.channel)) [
        | inl r ↦ elim (Bool-cases (leb max_topics (length cached))) [
          | inl f ↦ inr (rw (m, e, r, f) (ground (arith, f), refl))
          | inr f ↦ inl (k, rw (m, e, r) (ground (arith, f)), e, rw (m, e, r, f) refl)
        ]
        | inr (old, r) ↦ inl (k, rw (m, e, r) refl, e, rw (m, e, r) refl)
      ]
    ]
    | inr m ↦ inr (rw m (refl, refl))
  ]

  refused :
      (d : CompareAndSet) (cached : Cache) (k : Kind)
      → read cached d.channel ≡ some k
      → matches same (some k) d ≡ false
      → compare_and_set same d cached ≡ (cached, (false, some k))
  unfolding compare_and_set
  refused d cached k r m = rw (r, m) refl

  unmet :
      (d : CompareAndSet) (k : Kind)
      → (d.expect_absent ≡ true)
        ⊎ ((d.expect_absent ≡ false) × (agree same (some k) (flat d.expected) ≡ false))
      → matches same (some k) d ≡ false
  unfolding matches
  unmet d k (inl a) = rw a refl
  unmet d k (inr (a, f)) = rw (a, f) refl

  swapped_read :
      (c : CompareAndSet) (cached : Cache) (k : Kind) (j : Text)
      → HoldOne cached
      → (compare_and_set same c cached).1 ≡ (true, some k)
      → j ≡ c.channel
      → read (compare_and_set same c cached).0 j ≡ some k
  swapped_read c cached k j h s e = elim (compare_and_set_cases c cached) [
    | inl (l, g, v, r) ↦ rw r (
        ground (
          arith,
          read-push_channel c.channel j l cached h,
          text_eq.eqb_iff c.channel j,
          ap (λ p. p.1) r,
          s,
          e,
        ))
    | inr (g, r) ↦ absurd cc
  ]

  -- Of two requests for one channel that cannot both hold only the first is granted: when one was
  -- granted, a second that expects no value, or a value that is not the new one, changes
  -- nothing and is told the first one's value.
  pub compare_and_set_once :
      (c d : CompareAndSet) (cached : Cache) (k : Kind)
      → HoldOne cached
      → (compare_and_set same c cached).1 ≡ (true, some k)
      → d.channel ≡ c.channel
      → (d.expect_absent ≡ true)
        ⊎ ((d.expect_absent ≡ false) × (agree same (some k) (flat d.expected) ≡ false))
      → compare_and_set same d (compare_and_set same c cached).0
        ≡ ((compare_and_set same c cached).0, (false, some k))
  compare_and_set_once c d cached k h s e o =
      refused d (compare_and_set same c cached).0 k (swapped_read c cached k d.channel h s e)
        (unmet d k o)
