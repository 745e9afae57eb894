-- ===== src/Client/Reader/Replies.antt =====
-- client/src/client.rs: `request` against the reader of replies. Requests are made one at a time,
-- under a lock; each waits until its reply, a failed send or its timeout ends it.
use tarwyn.Base.{
  suc, subst, sym, ap, ◌∙◌, append-nil, ℕ, ◌+◌, ◌^◌, ◌%◌, ◌≡◌, ◌≤◌, refl, Option, none, some, List,
  [], ◌∷◌, ◌++◌, ◌==◌, nat_eq, ◌⊎◌, inl, inr, arith, All, All-append, Bool-cases, Option-cases,
  length, length-append,
}
use tarwyn.Base.Bytes.{Bytes}
use tarwyn.Client.Reader.{Answer, answer, handle_reply}

-- The fields that a request uses, and the answers that were handed over.
pub record Requests : Type 0 where
  pub next_request : ℕ
  pub pending : Option ℕ
  pub answers : List Answer

unfoldable pub no_requests : Requests
no_requests = record { next_request = 0; pending = none; answers = [] }

-- `request` up to its send: ids start at 1. The counter has 64 bits.
unfoldable pub ask : Requests → Requests
ask r = let id = (r.next_request + 1) % 2 ^ 64 in record r { next_request = id; pending = some id }

-- The end of a request whose frame could not be sent, or whose time is up.
unfoldable pub give_up : Requests → Requests
give_up r = record r { pending = none }

unfoldable pub hear : (Bytes → Option ℕ) → Bytes → Requests → Requests
hear reply_id payload r =
    let (pending, handed) = handle_reply reply_id payload r.pending in
    let taken : List Answer = elim handed [ none ↦ [] | some a ↦ a ∷ [] ] in
    record r { pending = pending; answers = r.answers ++ taken }

module _ (reply_id : Bytes → Option ℕ) where
  -- What a client's requests and the frames that are no value messages can lead to, and how many
  -- requests were made.
  pub data Asked : ℕ → Requests → Type 0 where
    fresh : Asked 0 no_requests
    asks : {n : ℕ} {r : Requests} → Asked n r → r.pending ≡ none → Asked (suc n) (ask r)
    gives_up : {n : ℕ} {r : Requests} → Asked n r → Asked n (give_up r)
    hears : (payload : Bytes) {n : ℕ} {r : Requests} → Asked n r → Asked n (hear reply_id payload r)

  -- An answer carries the id of its request, or 0.
  abbrev pub Answers : Answer → Type 0
  Answers a = (reply_id a.reply ≡ some a.id) ⊎ (reply_id a.reply ≡ some 0)

  answer_lem :
      (id : ℕ) (payload : Bytes) (pending : Option ℕ)
      → (answer id payload pending ≡ (pending, none))
        ⊎ ((waiting : ℕ) × (pending ≡ some waiting)
            × ((id ≡ 0) ⊎ (id ≡ waiting))
            × (answer id payload pending ≡ (none, some (record { id = waiting; reply = payload }))))
  unfolding answer
  answer_lem id payload none = inl refl
  answer_lem id payload (some waiting) = elim (Bool-cases (id == 0)) [
    | inl e ↦ inr (waiting, refl, inl ((nat_eq.eqb_iff id 0).0 e), rw e refl)
    | inr e ↦ elim (Bool-cases (id == waiting)) [
      | inl f ↦ inr (waiting, refl, inr ((nat_eq.eqb_iff id waiting).0 f), rw (e, f) refl)
      | inr f ↦ inl (rw (e, f) refl)
    ]
  ]

  abbrev pub waiting : Option ℕ → ℕ
  waiting none = 0
  waiting (some _) = 1

  record Sound (n : ℕ) (r : Requests) : Type 0 where
    matched : All Answers r.answers
    counted : length r.answers + waiting r.pending ≤ n

  hear-Sound :
      (payload : Bytes) (n : ℕ) (r : Requests) → Sound n r → Sound n (hear reply_id payload r)
  unfolding hear handle_reply
  hear-Sound payload n r h = elim (Option-cases (reply_id payload)) [
    | inl e ↦
        rw (e, handle_reply)
          (record {
            matched = subst (All Answers) (sym (append-nil r.answers)) h.matched;
            counted = omega (arith, h.counted, ap length (append-nil r.answers));
          })
    | inr (id, e) ↦ elim (answer_lem id payload r.pending) [
      | inl f ↦
          rw (e, handle_reply, f)
            (record {
              matched = subst (All Answers) (sym (append-nil r.answers)) h.matched;
              counted = omega (arith, h.counted, ap length (append-nil r.answers));
            })
      | inr (w, p, agrees, f) ↦
          let a : Answer = record { id = w; reply = payload } in
          let matches : Answers a = elim agrees [
            | inl z ↦ inr (e ∙ ap some z)
            | inr s ↦ inl (e ∙ ap some s)
          ] in
          rw (e, handle_reply, f)
            (record {
              matched = All-append Answers r.answers (a ∷ []) h.matched (matches, tt);
              counted = omega (arith, h.counted, ap waiting p, length-append r.answers (a ∷ []));
            })
    ]
  ]

  Asked-Sound : {n : ℕ} {r : Requests} → Asked n r → Sound n r
  unfolding no_requests ask give_up
  Asked-Sound fresh = record { matched = tt; counted = omega arith }
  Asked-Sound (asks a e) =
      let h = Asked-Sound a in
      record { matched = h.matched; counted = omega (arith, h.counted, ap waiting e) }
  Asked-Sound (gives_up a) =
      let h = Asked-Sound a in record { matched = h.matched; counted = omega (arith, h.counted) }
  Asked-Sound (hears payload {n = n} {r = r} a) = hear-Sound payload n r (Asked-Sound a)

  -- Whatever requests are made, one at a time, are given up, and whatever replies arrive, late ones
  -- included: a request is only ever handed a reply with its own id or with id 0, and
  -- there are no more replies handed over than requests that no longer wait.
  pub answers-Asked :
      (n : ℕ) (r : Requests)
      → Asked n r
      → All Answers r.answers × (length r.answers + waiting r.pending ≤ n)
  answers-Asked n r a = let h = Asked-Sound a in (h.matched, h.counted)
