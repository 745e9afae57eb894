-- ===== src/Telemetry/Examples.antt =====
-- Datagrams on concrete bytes.
use tarwyn.Base.{◌≡◌, refl, none, some, [], ◌∷◌, arith, utf8}
use tarwyn.Base.Bytes.{Bytes}
use tarwyn.Telemetry.{encode_datagram, decode_datagram, decode_registration, hash_from, topic_hash}
use tarwyn.Telemetry.RoundTrip.{decode_datagram-encode_datagram}

-- The published value of the hash for one letter.
hash_a : topic_hash (utf8 "a") ≡ 0xe40c292c
unfolding topic_hash hash_from
hash_a = refl

decode_datagram-encode_datagram_example :
    (out : Bytes) × (encode_datagram 22 5 9 (1 ∷ 2 ∷ 3 ∷ []) ≡ some out)
    × (decode_datagram out ≡ some (5, 9, 1 ∷ 2 ∷ []))
    × (decode_registration out ≡ none)
decode_datagram-encode_datagram_example =
    decode_datagram-encode_datagram 22 5 9 (1 ∷ 2 ∷ 3 ∷ []) (omega arith) (omega arith)
      (omega arith) (omega arith)
