-- ===== src/Transport/Examples.antt =====
-- A delivery to a client whose socket keeps what it is sent.
use tarwyn.Base.{◌≡◌, refl, Bool, true, false, List, [], ◌∷◌, ◌++◌, Text, utf8, ◌⊎◌}
use tarwyn.Json.{Json, null}
use tarwyn.Registry.State.{Outbound}
use tarwyn.Transport.{
  Message, Client, new_client, is_free, is_running, enqueue, flush, flush_large, go_on, queue_text,
  deliver_from, deliver_all, writer_turn,
}
use tarwyn.Transport.Order.{connected, delivered, turned, all_tokens-Given}
use tarwyn.Transport.Writer.{all_tokens}
use tarwyn.Transport.Tokens.{log_tokens, outbound_tokens}

abbrev keep : List Message → Message → List Message × Bool
keep s m = (s ++ (m ∷ []), true)

abbrev print_empty : Json → Text
print_empty _ = utf8 "{}"

abbrev three : List Outbound
three = Outbound.value (1 ∷ 2 ∷ []) ∷ Outbound.text null ∷ Outbound.value (3 ∷ []) ∷ []

abbrev after_delivery : Client (List Message)
after_delivery = (deliver_all keep print_empty three (new_client [] 4)).0

all_taken : (deliver_all keep print_empty three (new_client [] 4)).1 ≡ 0
unfolding deliver_all deliver_from go_on queue_text enqueue flush flush_large is_free is_running
    new_client
all_taken = refl

-- Nothing was dropped, and the writer thread then took the text.
all_tokens-Given_example :
    (all_tokens keep (λ s. s) (writer_turn keep after_delivery) ≡ outbound_tokens print_empty three)
    × ((is_free (writer_turn keep after_delivery) ≡ false)
        ⊎ (log_tokens (writer_turn keep after_delivery).writer.socket
            ≡ outbound_tokens print_empty three))
all_tokens-Given_example =
    all_tokens-Given keep (λ s. s) (λ s m. (refl, refl)) print_empty 4 [] three
      (writer_turn keep after_delivery) refl (turned (delivered three connected all_taken))
