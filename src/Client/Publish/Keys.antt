-- ===== src/Client/Publish/Keys.antt =====
-- The ids of a client and the keys of the frames that it keeps.
use tarwyn.Base.{
  ℕ, ◌<◌, ◌≡◌, none, some, Text, ◌==◌, nat_eq, text_eq, length, arith, inl, inr, ap, sym, ◌∙◌,
  Bool-cases, text_eqb_iff,
}
use tarwyn.Base.Assoc.{Assoc, lookup, insert, lookup-insert, length-insert}
use tarwyn.Client.Publish.{subscribe_key}
use tarwyn.Registry.Lifecycle.{decimal}
use tarwyn.Registry.Naming.{reading, reading-digits}

-- The ids are below their number and belong to one channel each.
pub record Numbered (pubuids : Assoc Text ℕ) : Type 0 where
  pub below : (a : Text) (p : ℕ) → lookup a pubuids ≡ some p → p < length pubuids
  pub distinct :
      (a b : Text) (p : ℕ) → lookup a pubuids ≡ some p → lookup b pubuids ≡ some p → a ≡ b

pub Numbered-insert :
    (channel : Text) (m : Assoc Text ℕ)
    → lookup channel m ≡ none
    → Numbered m
    → Numbered (insert channel (length m) m)
Numbered-insert channel m e h = record {
  below = λ a p f. ground (
    arith,
    lookup-insert a channel (length m) m,
    length-insert channel (length m) m,
    h.below a p,
  );
  distinct = λ a b p f g. ground (
    arith,
    lookup-insert a channel (length m) m,
    lookup-insert b channel (length m) m,
    text_eqb_iff channel a,
    text_eqb_iff channel b,
    h.below a p,
    h.below b p,
    h.distinct a b p,
  );
}

decimal_injective : (m n : ℕ) → decimal m ≡ decimal n → m ≡ n
unfolding decimal
decimal_injective m n e =
    sym (reading-digits m m (omega arith)) ∙ ap (reading 0) e ∙ reading-digits n n (omega arith)

pub subscribe_key_eqb : (i j : ℕ) → (subscribe_key i == subscribe_key j) ≡ (i == j)
subscribe_key_eqb i j = elim (Bool-cases (i == j)) [
  | inl e ↦
      (text_eqb_iff (subscribe_key i) (subscribe_key j)).1
        (ap subscribe_key ((nat_eq.eqb_iff i j).0 e))
      ∙ sym e
  | inr e ↦ elim (Bool-cases (decimal i == decimal j)) [
    | inl f ↦
        let same = decimal_injective i j ((text_eqb_iff (decimal i) (decimal j)).0 f) in
        absurd (cc ((nat_eq.eqb_iff i j).1 same, e))
    | inr f ↦ f ∙ sym e
  ]
]
