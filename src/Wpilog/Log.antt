-- ===== src/Wpilog/Log.antt =====
-- The writer keeps a log that a reader follows: what a reader has seen of the file after each step.
use tarwyn.Base.{
  ℕ, ◌+◌, ◌^◌, ◌<◌, ◌≡◌, refl, false, some, List, [], ◌∷◌, ◌++◌, Text, length, take, ◌==◌, text_eq,
  nat_eq, arith, append-nil, All, All-append, append_assoc, Bool-cases, inl, inr, sym, ap, ◌∙◌,
  subst,
}
use tarwyn.Base.Assoc.{Assoc, lookup, insert, remove, lookup-insert, lookup-remove}
use tarwyn.Base.Bytes.{Bytes, to_le, from_le, length-to_le}
use tarwyn.Wpilog.{Entry, control_entry, start_payload, finish_payload}
use tarwyn.Wpilog.Reader.{View, follow, follow_all, follow_control}
use tarwyn.Wpilog.Record.{
  IsRecord, record_bytes, file_bytes, file_bytes-append, start_name-start_payload, from_le-take,
}

abbrev pub no_view : View
no_view = record { opened = []; samples = [] }

pub follow_all-append :
    (v : View) (rs : List (ℕ × ℕ × Bytes)) (r : ℕ × ℕ × Bytes)
    → follow_all v (rs ++ (r ∷ [])) ≡ follow (follow_all v rs) r
unfolding follow_all
follow_all-append v [] r = refl
follow_all-append v (s ∷ rs) r = follow_all-append (follow v s) rs r

-- The bytes after the header are those of records, which a reader has followed to a view.
pub record LogOf (header file : Bytes) (v : View) : Type 0 where
  pub recs : List (ℕ × ℕ × Bytes)
  pub written : file ≡ header ++ file_bytes recs
  pub bounded : All IsRecord recs
  pub followed : follow_all no_view recs ≡ v

-- The entries that the writer has are open in the view, under the same ids.
abbrev pub IsTracked : Assoc Text Entry → ℕ → Assoc ℕ (Text × Text) → Type 0
IsTracked entries next_id opened =
    (name : Text) (e : Entry)
    → lookup name entries ≡ some e
    → (lookup e.id opened ≡ some (name, e.type_name)) × (0 < e.id) × (e.id < next_id)

abbrev pub IsTrackedBesides : Text → Assoc Text Entry → ℕ → Assoc ℕ (Text × Text) → Type 0
IsTrackedBesides besides entries next_id opened =
    (name : Text) (e : Entry)
    → (besides == name) ≡ false
    → lookup name entries ≡ some e
    → (lookup e.id opened ≡ some (name, e.type_name)) × (0 < e.id) × (e.id < next_id)

pub IsTracked-insert :
    (name type_name : Text) (entries : Assoc Text Entry) (id : ℕ) (opened : Assoc ℕ (Text × Text))
    → IsTrackedBesides name entries id opened
    → 0 < id
    → IsTracked
        (insert name (record { id = id; type_name = type_name }) entries)
        (id + 1)
        (insert id (name, type_name) opened)
IsTracked-insert name type_name entries id opened t pos j e h = elim (Bool-cases (name == j)) [
  | inl f ↦
      let fresh : Entry = record { id = id; type_name = type_name } in
      let same : fresh ≡ e = ground (arith, h, f, lookup-insert j name fresh entries) in
      let named : name ≡ j = (text_eq.eqb_iff name j).0 f in
      subst
        (λ k.
          (lookup k.id (insert id (name, type_name) opened) ≡ some (j, k.type_name))
          × (0 < k.id)
          × (k.id < id + 1))
        same
        (
          rw (lookup-insert id id (name, type_name) opened)
              (ground (arith, nat_eq.eqb_iff id id, named)),
          pos,
          omega arith,
        )
  | inr f ↦
      let (found, above, below) = t j e f (
        ground (
          arith,
          h,
          f,
          lookup-insert j name (record { id = id; type_name = type_name }) entries,
        )) in
      (
        ground (arith, found, below, lookup-insert e.id id (name, type_name) opened),
        above,
        omega arith,
      )
]

-- Closing a channel's entry leaves those of the other channels open.
pub IsTracked-remove :
    (name : Text) (old : Entry) (entries : Assoc Text Entry) (next_id : ℕ)
    (opened : Assoc ℕ (Text × Text))
    → IsTracked entries next_id opened
    → lookup name entries ≡ some old
    → IsTrackedBesides name entries next_id (remove old.id opened)
IsTracked-remove name old entries next_id opened t found j e f h =
    let (mine, _, _) = t name old found in
    let (its, above, below) = t j e h in
    (
      ground (arith, mine, its, f, text_eq.eqb_iff name j, lookup-remove e.id old.id opened),
      above,
      below,
    )

pub LogOf-append :
    (header file more : Bytes) (v : View) (r : ℕ × ℕ × Bytes)
    → LogOf header file v
    → IsRecord r
    → more ≡ file ++ record_bytes r
    → LogOf header more (follow v r)
LogOf-append header file more v r l b e = record {
  recs = l.recs ++ (r ∷ []);
  written =
      e
      ∙ ap (λ f. f ++ record_bytes r) l.written
      ∙ append_assoc header (file_bytes l.recs) (record_bytes r)
      ∙ ap (◌++◌ header) (sym (file_bytes-append l.recs r));
  bounded = All-append IsRecord l.recs (r ∷ []) l.bounded (b, tt);
  followed = follow_all-append no_view l.recs r ∙ ap (λ u. follow u r) l.followed;
}

-- The view after a control record.
pub follow-start :
    (v : View) (id timestamp : ℕ) (name type_name : Text)
    → id < 2 ^ 32
    → length name < 2 ^ 32
    → length type_name < 2 ^ 32
    → follow v (control_entry, timestamp, start_payload id name type_name)
      ≡ record v { opened = insert id (name, type_name) v.opened }
unfolding follow follow_control start_payload
follow-start v id timestamp name type_name hi hn ht =
    rw (start_name-start_payload id name type_name hi hn ht) refl

pub follow-finish :
    (v : View) (id timestamp : ℕ)
    → id < 2 ^ 32
    → follow v (control_entry, timestamp, finish_payload id)
      ≡ record v { opened = remove id v.opened }
unfolding follow follow_control finish_payload
follow-finish v id timestamp hi =
    ap (λ k. record v { opened = remove k v.opened })
      (ap (λ b. from_le (take 4 b)) (sym (append-nil (to_le 4 id)))
        ∙ from_le-take 4 id [] (omega arith))

pub length-finish_payload : (id : ℕ) → length (finish_payload id) < 2 ^ 32
unfolding finish_payload
length-finish_payload id = omega (arith, length-to_le 4 id)

pub follow-value :
    (v : View) (id timestamp : ℕ) (channel type_name : Text) (payload : Bytes)
    → 0 < id
    → lookup id v.opened ≡ some (channel, type_name)
    → follow v (id, timestamp, payload) ≡ record v {
      samples =
          v.samples
          ++ (record {
            channel = channel;
            type_name = type_name;
            timestamp = timestamp;
            payload = payload;
          }
              ∷ []);
    }
unfolding follow
follow-value v id timestamp channel type_name payload pos h =
    let value_record : (id == control_entry) ≡ false = ground arith in
    rw (follow, value_record, h) refl
