-- ===== src/Transport/Tokens.antt =====
-- What a client is sent, as one sequence of tokens.
use tarwyn.Base.{
  ℕ, suc, ◌+◌, ◌≡◌, refl, Bool, true, false, Option, none, some, List, [], ◌∷◌, ◌++◌, Text, length,
  ◌==◌, nat_eq, map, if◌then◌else◌, append-nil, append_assoc, arith, inl, inr, ◌⊎◌, ap, sym, ◌∙◌,
}
use tarwyn.Base.Bytes.{Bytes}
use tarwyn.Json.{Json}
use tarwyn.Registry.State.{Outbound}
use tarwyn.Transport.{
  Message, binary, ping, RouteMsg, value, Phase, waiting, writing, flushing, stopped, Client,
  is_free,
}

-- What a client sees: the bytes of its values, its texts and the rest, without the pings.
pub data Token : Type 0 where
  byte : ℕ → Token
  words : Text → Token
  bytes_through : Bytes → Token
  closing : ℕ → Text → Token

abbrev pub bytes_tokens : Bytes → List Token
bytes_tokens b = map (λ x. byte x) b

abbrev pub message_tokens : Message → List Token
message_tokens (binary b) = bytes_tokens b
message_tokens (Message.text t) = words t ∷ []
message_tokens (Message.raw b) = bytes_through b ∷ []
message_tokens ping = []
message_tokens (Message.close code reason) = closing code reason ∷ []

abbrev pub route_tokens : RouteMsg → List Token
route_tokens (value b) = bytes_tokens b
route_tokens (RouteMsg.text t) = words t ∷ []
route_tokens (RouteMsg.raw b) = bytes_through b ∷ []
route_tokens (RouteMsg.close code reason) = closing code reason ∷ []

unfoldable pub log_tokens : List Message → List Token
log_tokens [] = []
log_tokens (m ∷ ms) = message_tokens m ++ log_tokens ms

unfoldable pub queue_tokens : List RouteMsg → List Token
queue_tokens [] = []
queue_tokens (m ∷ ms) = route_tokens m ++ queue_tokens ms

unfoldable pub outbound_tokens : (Json → Text) → List Outbound → List Token
outbound_tokens print [] = []
outbound_tokens print (Outbound.value b ∷ rest) = bytes_tokens b ++ outbound_tokens print rest
outbound_tokens print (Outbound.text t ∷ rest) = words (print t) ∷ outbound_tokens print rest

abbrev pub hand_tokens : Option RouteMsg → List Token
hand_tokens none = []
hand_tokens (some m) = route_tokens m

abbrev pub held : Option RouteMsg → ℕ
held none = 0
held (some _) = 1

pub log_tokens-append :
    (ms : List Message) (m : Message)
    → log_tokens (ms ++ (m ∷ [])) ≡ log_tokens ms ++ message_tokens m
unfolding log_tokens
log_tokens-append [] m = append-nil (message_tokens m)
log_tokens-append (n ∷ ms) m =
    ap (◌++◌ (message_tokens n)) (log_tokens-append ms m)
    ∙ sym (append_assoc (message_tokens n) (log_tokens ms) (message_tokens m))

pub queue_tokens-append :
    (ms : List RouteMsg) (m : RouteMsg)
    → queue_tokens (ms ++ (m ∷ [])) ≡ queue_tokens ms ++ route_tokens m
unfolding queue_tokens
queue_tokens-append [] m = append-nil (route_tokens m)
queue_tokens-append (n ∷ ms) m =
    ap (◌++◌ (route_tokens n)) (queue_tokens-append ms m)
    ∙ sym (append_assoc (route_tokens n) (queue_tokens ms) (route_tokens m))

pub bytes_tokens-append :
    (xs ys : Bytes) → bytes_tokens (xs ++ ys) ≡ bytes_tokens xs ++ bytes_tokens ys
bytes_tokens-append [] ys = refl
bytes_tokens-append (x ∷ xs) ys = ap (◌∷◌ (byte x)) (bytes_tokens-append xs ys)

pub Phase-cases : (p : Phase) → (p ≡ waiting) ⊎ ((p ≡ writing) ⊎ ((p ≡ flushing) ⊎ (p ≡ stopped)))
Phase-cases waiting = inl refl
Phase-cases writing = inr (inl refl)
Phase-cases flushing = inr (inr (inl refl))
Phase-cases stopped = inr (inr (inr refl))

pub tokens_assoc : (a b c d : List Token) → a ++ (b ++ (c ++ d)) ≡ (a ++ (b ++ c)) ++ d
tokens_assoc a b c d = ap (◌++◌ a) (sym (append_assoc b c d)) ∙ sym (append_assoc a (b ++ c) d)

pub none_dropped :
    (taken : Bool) (dropped : ℕ)
    → (if taken then dropped else suc dropped) ≡ 0
    → (taken ≡ true) × (dropped ≡ 0)
none_dropped true dropped z = (refl, z)
none_dropped false dropped z = absurd (omega (arith, z))

pub nothing_held :
    (q : List RouteMsg) (o : Option RouteMsg) → length q + held o ≡ 0 → (q ≡ []) × (o ≡ none)
nothing_held [] none z = (refl, refl)
nothing_held [] (some m) z = absurd (omega (arith, z))
nothing_held (x ∷ xs) o z = absurd (omega (arith, z))

pub free_queued :
    (p : Phase) (n : ℕ)
    → p ≡ waiting
    → elim p as (λ _. Bool) [ waiting ↦ n == 0 | _ ↦ false ] ≡ true
    → (n == 0) ≡ true
free_queued waiting n h f = f
free_queued writing n h f = absurd cc
free_queued flushing n h f = absurd cc
free_queued stopped n h f = absurd cc

pub not_free :
    (p : Phase) (n : ℕ)
    → (p ≡ waiting → ⊥)
    → elim p as (λ _. Bool) [ waiting ↦ n == 0 | _ ↦ false ] ≡ true
    → ⊥
not_free waiting n h f = h refl
not_free writing n h f = absurd cc
not_free flushing n h f = absurd cc
not_free stopped n h f = absurd cc

pub free_cases :
    {S : Type 0} (c : Client S) → is_free c ≡ true → (c.phase ≡ waiting) × (c.queued ≡ 0)
unfolding is_free
free_cases c f = elim (Phase-cases c.phase) [
  | inl p ↦ (p, (nat_eq.eqb_iff c.queued 0).0 (free_queued c.phase c.queued p f))
  | inr (inl p) ↦ absurd (not_free c.phase c.queued (λ w. absurd cc) f)
  | inr (inr (inl p)) ↦ absurd (not_free c.phase c.queued (λ w. absurd cc) f)
  | inr (inr (inr p)) ↦ absurd (not_free c.phase c.queued (λ w. absurd cc) f)
]

pub outbound_tokens-append :
    (print : Json → Text) (xs ys : List Outbound)
    → outbound_tokens print (xs ++ ys) ≡ outbound_tokens print xs ++ outbound_tokens print ys
unfolding outbound_tokens
outbound_tokens-append print [] ys = refl
outbound_tokens-append print (Outbound.value b ∷ xs) ys =
    ap (◌++◌ (bytes_tokens b)) (outbound_tokens-append print xs ys)
    ∙ sym (append_assoc (bytes_tokens b) (outbound_tokens print xs) (outbound_tokens print ys))
outbound_tokens-append print (Outbound.text t ∷ xs) ys =
    ap (◌∷◌ (words (print t))) (outbound_tokens-append print xs ys)
