-- ===== src/Client/Publish/Examples.antt =====
-- A client that publishes a schema and a pose and subscribes to a channel.
use tarwyn.Base.{◌≡◌, refl, false, Option, none, some, List, [], ◌∷◌, Text, utf8, nat_eq}
use tarwyn.Base.Assoc.{lookup, insert}
use tarwyn.Base.Bytes.{Bytes}
use tarwyn.Client.Publish.{
  Client, new_client, send_struct, subscribe_channel, number_channel, ensure_pubuid_typed,
  publish_typed, send_schemas, send_schema, remember,
}
use tarwyn.Client.Publish.Known.{Known}
use tarwyn.Client.Publish.Session.{connected, sends_struct, subscribes, Reach-Known}
use tarwyn.Client.Wire.{Wire}
use tarwyn.Json.{Json}

-- A printer that prints nothing, and a socket that takes every frame.
abbrev blank : Json → Text
blank j = []

abbrev keep : List Bytes → Bytes → Option (List Bytes)
keep sent frame = some (frame ∷ sent)

abbrev offline : Wire (List Bytes)
offline = record {
  writer = none;
  outbound = none;
  send_high_water_mark = 500;
  reader_started = false;
  stop = false;
}

abbrev posed : Client (List Bytes) Bytes
posed =
    send_struct blank keep (utf8 "/pose") (utf8 "struct:Rotation2d")
      ((utf8 "struct:Rotation2d", utf8 "double value") ∷ []) (1 ∷ []) (new_client offline)

posed_pubuids : posed.book.pubuids ≡ (utf8 "/.schema/struct:Rotation2d", 0) ∷ (utf8 "/pose", 1) ∷ []
unfolding send_struct send_schemas send_schema publish_typed ensure_pubuid_typed number_channel
    remember insert new_client lookup
posed_pubuids = refl

Reach-Known_example :
    Known blank
      (insert posed.next_subuid (utf8 "/mode") [])
      (subscribe_channel blank keep (utf8 "/mode") posed).0.book
Reach-Known_example = Reach-Known blank keep (
    subscribes (utf8 "/mode") (
      sends_struct (utf8 "/pose") (utf8 "struct:Rotation2d")
        ((utf8 "struct:Rotation2d", utf8 "double value") ∷ []) (1 ∷ []) (connected offline)))
