-- ===== src/Registry/Naming.antt =====
-- `dedup_client_name` of core/src/websocket/protocol.rs: its search ends, with a name nobody has.
use tarwyn.Base.{
  ℕ, zero, suc, ◌+◌, ◌-◌, ◌*◌, ◌/◌, ◌%◌, ◌≤◌, ◌<◌, ◌≡◌, ◌≢◌, refl, ap, true, false, not, some, List,
  [], ◌∷◌, ◌++◌, Text, utf8, contains, retain, text_eq, ◌==◌, nat_eq, ltb, length, drop,
  drop-append, Bool-cases, inl, inr, arith, text_eqb_iff, text_eqb,
}
use tarwyn.Registry.Lifecycle.{digits, decimal, candidate, free_name, dedup_name}

-- The number that decimal digits stand for, after the digits read so far.
pub reading : ℕ → Text → ℕ
reading n [] = n
reading n (d ∷ ds) = reading (10 * n + (d - 0x30)) ds

reading-append :
    (n : ℕ) (xs : Text) (d : ℕ) → reading n (xs ++ (d ∷ [])) ≡ 10 * reading n xs + (d - 0x30)
unfolding reading
reading-append n [] d = refl
reading-append n (x ∷ xs) d = reading-append (10 * n + (x - 0x30)) xs d

pub reading-digits : (fuel n : ℕ) → n ≤ fuel → reading 0 (digits fuel n) ≡ n
unfolding reading digits
reading-digits zero n h = omega arith
reading-digits (suc fuel) n h = elim (Bool-cases (ltb n 10)) [
  | inl e ↦ ground (arith, e)
  | inr e ↦
      rw (e, digits)
        (let rest : reading 0 (digits fuel (n / 10)) ≡ n / 10 =
            reading-digits fuel (n / 10) (ground arith) in
          omega (arith, rest, reading-append 0 (digits fuel (n / 10)) (0x30 + n % 10)))
]

candidate_injective : (base : Text) (m n : ℕ) → candidate base m ≡ candidate base n → m ≡ n
unfolding candidate decimal
candidate_injective base m n e =
    let tails : utf8 "@" ++ digits m m ≡ utf8 "@" ++ digits n n = cc (
      ap (drop (length base)) e,
      drop-append base (utf8 "@" ++ digits m m),
      drop-append base (utf8 "@" ++ digits n n),
    ) in
    cc (
      reading-digits m m (omega arith),
      reading-digits n n (omega arith),
      ap (λ t. reading 0 (drop 1 t)) tails,
    )

-- The names without one of them.
others : Text → List Text → List Text
others c names = retain (λ n. not (n == c)) names

contains-others :
    (n c : Text) (names : List Text) → n ≢ c → contains n (others c names) ≡ contains n names
unfolding others
contains-others n c [] h = refl
contains-others n c (x ∷ xs) h = elim (Bool-cases (text_eqb x c)) [
  | inr e ↦ rw (e, contains-others n c xs h) refl
  | inl e ↦ rw (e, contains-others n c xs h, other x ((text_eqb_iff x c).0 e)) refl
]
  where
    other : (y : Text) → y ≡ c → text_eqb y n ≡ false
    other y same = elim (Bool-cases (text_eqb y n)) [
      | inr f ↦ f
      | inl f ↦ absurd (h (cc ((text_eqb_iff y n).0 f, same)))
    ]

length-others_le : (c : Text) (names : List Text) → length (others c names) ≤ length names
unfolding others
length-others_le c [] = omega arith
length-others_le c (x ∷ xs) = ground (arith, length-others_le c xs)

length-others_lt :
    (c : Text) (names : List Text)
    → contains c names ≡ true
    → length (others c names) < length names
unfolding others
length-others_lt c [] h = cc
length-others_lt c (x ∷ xs) h = ground (arith, length-others_le c xs, length-others_lt c xs)

free_name-others :
    (fuel : ℕ) (base : Text) (s t : ℕ) (names : List Text)
    → t < s
    → free_name fuel base s (others (candidate base t) names) ≡ free_name fuel base s names
unfolding free_name
free_name-others zero base s t names h = refl
free_name-others (suc fuel) base s t names h =
    rw
      (
        contains-others (candidate base s) (candidate base t) names
            (λ e. absurd (omega (arith, candidate_injective base s t e))),
        free_name-others fuel base (s + 1) t names (omega arith),
      )
      refl

free_name-enough :
    (fuel : ℕ) (base : Text) (s : ℕ) (names : List Text)
    → length names < fuel
    → (n : Text) × (free_name fuel base s names ≡ some n)
unfolding free_name
free_name-enough zero base s names h = absurd (omega arith)
free_name-enough (suc fuel) base s names h = elim (Bool-cases (contains (candidate base s) names)) [
  | inr e ↦ rw (e, free_name) (candidate base s, refl)
  | inl e ↦
      rw (e, free_name)
        (let (n, found) =
            free_name-enough fuel base (s + 1) (others (candidate base s) names)
              (omega (arith, length-others_lt (candidate base s) names e)) in
          (n, cc (found, free_name-others fuel base (s + 1) s names (omega arith))))
]

free_name-fresh :
    (fuel : ℕ) (base : Text) (suffix : ℕ) (names : List Text) (n : Text)
    → free_name fuel base suffix names ≡ some n
    → contains n names ≡ false
unfolding free_name
free_name-fresh zero base suffix names n h = cc
free_name-fresh (suc fuel) base suffix names n h =
    elim (Bool-cases (contains (candidate base suffix) names)) [
      | inl e ↦ ground (arith, e, free_name-fresh fuel base (suffix + 1) names n)
      | inr e ↦ ground (arith, e)
    ]

-- The search for a client's name always finds one, within one try more than there are names taken,
-- and the name is none of those.
pub dedup_name-fresh :
    (base : Text) (names : List Text)
    → (n : Text) × (dedup_name base names ≡ some n) × (contains n names ≡ false)
unfolding dedup_name
dedup_name-fresh base names = elim (Bool-cases (contains base names)) [
  | inr e ↦ rw (e, dedup_name) (base, refl, e)
  | inl e ↦
      rw (e, dedup_name)
        (let (n, found) = free_name-enough (suc (length names)) base 1 names (omega arith) in
          (n, found, free_name-fresh (suc (length names)) base 1 names n found))
]
