-- ===== src/Registry/Invariant/Steps.antt =====
-- The three changes of the topic table: a topic added, a topic changed, a topic dropped.
use tarwyn.Base.{
  ℕ, ◌≤◌, ◌<◌, ◌≡◌, ◌∙◌, true, false, none, some, List, [], ◌∷◌, ◌++◌, ◌==◌, nat_eq, text_eq, Text,
  contains, arith, inl, inr, Option-cases, Bool-cases, nat_eqb_iff, text_eqb_iff,
}
use tarwyn.Base.Assoc.{
  Assoc, lookup, insert, remove, modify, lookup-insert, lookup-remove, lookup-modify,
}
use tarwyn.Registry.Core.{alloc_id, free_id, add_topic}
use tarwyn.Registry.Delete.{drop_topic}
use tarwyn.Registry.Invariant.{Distinct, Catalog, IsValid}
use tarwyn.Registry.Invariant.Ids.{alloc_id-Allocates, contains-append, Distinct-append_one}
use tarwyn.Registry.State.{NtRegistry, TopicState}

module _ (topics : Assoc ℕ TopicState) (by_name : Assoc Text ℕ) (freed freed' : List ℕ)
    (next_id next_id' : ℕ) (c : Catalog topics by_name freed next_id) where
  -- A topic under an id and a name that are not in use.
  Catalog-insert :
      (id : ℕ) (t : TopicState)
      → lookup id topics ≡ none
      → lookup t.name by_name ≡ none
      → id < next_id'
      → next_id ≤ next_id'
      → contains id freed' ≡ false
      → ((x : ℕ) → contains x freed' ≡ true → contains x freed ≡ true)
      → Distinct freed'
      → Catalog (insert id t topics) (insert t.name id by_name) freed' next_id'
  Catalog-insert id t dead unnamed low grows taken free once = record {
    named = λ n i h. ground (
      arith,
      lookup-insert n t.name id by_name,
      lookup-insert i id t topics,
      text_eqb_iff t.name n,
      nat_eqb_iff id i,
      c.named n i,
    );
    listed = λ i s h. ground (
      arith,
      lookup-insert i id t topics,
      lookup-insert s.name t.name id by_name,
      text_eqb_iff t.name s.name,
      nat_eqb_iff id i,
      c.listed i s,
    );
    below = λ i s h. ground (arith, lookup-insert i id t topics, nat_eqb_iff id i, c.below i s);
    free_below = λ x h. ground (arith, free x h, c.free_below x);
    free_dead = λ x h.
        ground (arith, lookup-insert x id t topics, nat_eqb_iff id x, free x h, c.free_dead x);
    free_once = once;
  }

module _ (topics : Assoc ℕ TopicState) (by_name : Assoc Text ℕ) (freed : List ℕ) (next_id : ℕ)
    (c : Catalog topics by_name freed next_id) where
  -- A change of a topic that leaves its name alone.
  Catalog-modify :
      (id : ℕ) (f : TopicState → TopicState)
      → ((t : TopicState) → (f t).name ≡ t.name)
      → Catalog (modify id f topics) by_name freed next_id
  Catalog-modify id f keeps = record {
    named = λ n i h.
        let (t, e, p) = c.named n i h in
        elim (Bool-cases (id == i)) [
          | inl eq ↦ (f t, ground (arith, lookup-modify i id f topics), keeps t ∙ p)
          | inr ne ↦ (t, ground (arith, lookup-modify i id f topics), p)
        ];
    listed = λ i s h. elim (Option-cases (lookup i topics)) [
      | inl e ↦ ground (arith, lookup-modify i id f topics)
      | inr (t, e) ↦ ground (arith, lookup-modify i id f topics, keeps t, c.listed i t e)
    ];
    below = λ i s h. elim (Option-cases (lookup i topics)) [
      | inl e ↦ ground (arith, lookup-modify i id f topics)
      | inr (t, e) ↦ c.below i t e
    ];
    free_below = c.free_below;
    free_dead = λ x h. ground (arith, lookup-modify x id f topics, c.free_dead x h);
    free_once = c.free_once;
  }

  -- A topic dropped, and its id free again.
  Catalog-remove :
      (id : ℕ) (t : TopicState)
      → lookup id topics ≡ some t
      → Catalog (remove id topics) (remove t.name by_name) (freed ++ (id ∷ [])) next_id
  Catalog-remove id t e = record {
    named = λ n i h. ground (
      arith,
      lookup-remove n t.name by_name,
      lookup-remove i id topics,
      text_eqb_iff t.name n,
      nat_eqb_iff id i,
      c.named n i,
      c.listed id t e,
    );
    listed = λ i s h. ground (
      arith,
      lookup-remove i id topics,
      lookup-remove s.name t.name by_name,
      text_eqb_iff t.name s.name,
      nat_eqb_iff id i,
      c.listed i s,
      c.listed id t e,
    );
    below = λ i s h. ground (arith, lookup-remove i id topics, c.below i s);
    free_below = λ x h. ground (
      arith,
      contains-append x freed (id ∷ []),
      nat_eqb_iff id x,
      c.free_below x,
      c.below id t e,
    );
    free_dead = λ x h. ground (
      arith,
      contains-append x freed (id ∷ []),
      nat_eqb_iff id x,
      c.free_dead x,
      lookup-remove x id topics,
    );
    free_once = Distinct-append_one id freed not_free c.free_once;
  }
    where
      not_free : contains id freed ≡ false
      not_free = elim (Bool-cases (contains id freed)) [
        | inl h ↦ cc (e, c.free_dead id h)
        | inr h ↦ h
      ]

-- A topic added under a new name keeps the table valid.
pub add_topic-IsValid :
    {r : NtRegistry} (t : TopicState)
    → IsValid r
    → lookup t.name r.by_name ≡ none
    → IsValid (add_topic t r).1
unfolding add_topic
add_topic-IsValid {r} t v unnamed =
    let a = alloc_id-Allocates r v in
    let id = (alloc_id r).0 in
    let r' = (alloc_id r).1 in
    record {
      catalog =
          rw (a.topics, a.by_name)
            (Catalog-insert r.topics r.by_name r.freed r'.freed r.next_id r'.next_id v.catalog id t
              a.dead unnamed a.in_range a.grows a.taken a.free a.once);
    }

pub drop_topic-IsValid :
    {r : NtRegistry} (id : ℕ) (t : TopicState)
    → IsValid r
    → lookup id r.topics ≡ some t
    → IsValid (drop_topic id t r)
unfolding drop_topic free_id
drop_topic-IsValid {r} id t v e = record {
  catalog = Catalog-remove r.topics r.by_name r.freed r.next_id v.catalog id t e;
}

pub modify-IsValid :
    {r : NtRegistry} (id : ℕ) (f : TopicState → TopicState)
    → ((t : TopicState) → (f t).name ≡ t.name)
    → IsValid r
    → Catalog (modify id f r.topics) r.by_name r.freed r.next_id
modify-IsValid {r} id f keeps v =
    Catalog-modify r.topics r.by_name r.freed r.next_id v.catalog id f keeps
