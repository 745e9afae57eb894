-- ===== src/Transport/Dispatch.antt =====
-- core/src/websocket/transport.rs: `ConnectionMap`, which routes frames to the clients they are for.
pub mod Grouping
mod Examples
use tarwyn.Base.{
  ℕ, Bool, ◌+◌, ◌%◌, ◌^◌, Option, none, some, List, [], ◌∷◌, ◌++◌, Text, ◌==◌, nat_eq,
  if◌then◌else◌,
}
use tarwyn.Base.Assoc.{Assoc, lookup, insert, remove}
use tarwyn.Json.{Json}
use tarwyn.Registry.State.{Outbound, Routes}
use tarwyn.Transport.{Message, RouteMsg, close, Client, enqueue, deliver_all}

-- `ConnectionMap`. A client is shared, so `senders` has its address; the clients are kept apart.
pub record ConnectionMap : Type 0 where
  pub senders : Assoc ℕ ℕ
  pub dropped : ℕ

abbrev pub Clients : Type 0 → Type 0
Clients S = ℕ → Client S

abbrev pub put_client : {S : Type 0} → ℕ → Client S → Clients S → Clients S
put_client address c store a = if address == a then c else store a

-- A frame with the id and the address of its client, and what one client gets.
abbrev pub Planned : Type 0
Planned = ℕ × (ℕ × Outbound)

abbrev pub Group : Type 0
Group = ℕ × (ℕ × List Outbound)

unfoldable pub new_map : ConnectionMap
new_map = record { senders = []; dropped = 0 }

unfoldable pub add_client : ℕ → ℕ → ConnectionMap → ConnectionMap
add_client id address m = record m { senders = insert id address m.senders }

unfoldable pub remove_client : ℕ → ConnectionMap → ConnectionMap
remove_client id m = record m { senders = remove id m.senders }

-- A full queue loses the close frame.
unfoldable pub send_close : {S : Type 0} → ℕ → ℕ → Text → ConnectionMap → Clients S → Clients S
send_close id code reason m store = elim (lookup id m.senders) [
  | none ↦ store
  | some address ↦ put_client address (enqueue (close code reason) (store address)).0 store
]

unfoldable pub plan : ConnectionMap → Routes → List Planned
plan m [] = []
plan m ((id, outbound) ∷ routes) =
    let rest = plan m routes in
    elim (lookup id m.senders) [ none ↦ rest | some address ↦ (id, (address, outbound)) ∷ rest ]

-- One frame joins the group of its client, or begins one.
unfoldable pub add_route : ℕ → ℕ → Outbound → List Group → List Group
add_route id address outbound [] = (id, (address, outbound ∷ [])) ∷ []
add_route id address outbound ((seen, (kept, outbounds)) ∷ groups) =
    if seen == id
    then (seen, (kept, outbounds ++ (outbound ∷ []))) ∷ groups
    else (seen, (kept, outbounds)) ∷ add_route id address outbound groups

unfoldable pub group_from : List Group → List Planned → List Group
group_from groups [] = groups
group_from groups ((id, (address, outbound)) ∷ rest) =
    group_from (add_route id address outbound groups) rest

module _ {S : Type 0} (send : S → Message → S × Bool) (print : Json → Text) where
  -- Each group is delivered; the drops are summed.
  unfoldable pub deliver_groups : List Group → Clients S → Clients S × ℕ
  deliver_groups [] store = (store, 0)
  deliver_groups ((id, (address, outbounds)) ∷ groups) store =
      let (c, dropped) = deliver_all send print outbounds (store address) in
      let (rest, more) = deliver_groups groups (put_client address c store) in
      (rest, dropped + more)

  -- `deliver`: a single frame needs no groups.
  unfoldable pub deliver : List Planned → Clients S → Clients S × ℕ
  unfolding group_from
  deliver [] store = (store, 0)
  deliver ((id, (address, outbound)) ∷ []) store =
      let (c, dropped) = deliver_all send print (outbound ∷ []) (store address) in
      (put_client address c store, dropped)
  deliver (first ∷ second ∷ rest) store =
      deliver_groups (group_from [] (first ∷ second ∷ rest)) store

  -- The clients, the map with the drops counted, and how many there were.
  unfoldable pub dispatch : Routes → ConnectionMap → Clients S → Clients S × (ConnectionMap × ℕ)
  dispatch routes m store =
      let (after, dropped) = deliver (plan m routes) store in
      (after, (record m { dropped = (m.dropped + dropped) % 2 ^ 64 }, dropped))
