-- ===== src/Registry/Clients.antt =====
-- What a client holds: its publishers and subscriptions, each under its uid, and their cap.
use tarwyn.Base.{ℕ, Bool, not, ◌&&◌, none, some, [], leb, length, nat_eq, text_eq, is_some}
use tarwyn.Base.Assoc.{Assoc, lookup, modify}
use tarwyn.Registry.State.{NtRegistry, Subscription, max_per_client}

-- The client's state, or none.
abbrev pub subs_of : NtRegistry → ℕ → Assoc ℕ Subscription
subs_of r client = elim (lookup client r.clients) [ none ↦ [] | some cs ↦ cs.subs ]

abbrev pub pubs_of : NtRegistry → ℕ → Assoc ℕ ℕ
pubs_of r client = elim (lookup client r.clients) [ none ↦ [] | some cs ↦ cs.pubs ]

-- Whether one more entry would pass the cap of a client.
unfoldable pub over_cap {ℓ} : {V : Type ℓ} → ℕ → Assoc ℕ V → Bool
over_cap uid m = not (is_some (lookup uid m)) && leb max_per_client (length m)

unfoldable pub set_pubs : (Assoc ℕ ℕ → Assoc ℕ ℕ) → ℕ → NtRegistry → NtRegistry
set_pubs f client r = record r {
  clients = modify client (λ cs. record cs { pubs = f cs.pubs }) r.clients;
}

unfoldable pub set_subs :
    (Assoc ℕ Subscription → Assoc ℕ Subscription) → ℕ → NtRegistry → NtRegistry
set_subs f client r = record r {
  clients = modify client (λ cs. record cs { subs = f cs.subs }) r.clients;
}
