-- ===== src/Transport/Dispatch/Grouping.antt =====
-- Each client is delivered its own frames, in their order, in one delivery.
use tarwyn.Base.{
  subst, eqb_refl, ℕ, ◌≡◌, refl, Bool, false, some, List, [], ◌∷◌, ◌++◌, Text, ◌==◌, nat_eq,
  if◌then◌else◌, ap, sym, ◌∙◌, append-nil, append_assoc, arith, Bool-cases, Option-cases, inl, inr,
}
use tarwyn.Base.Assoc.{lookup}
use tarwyn.Json.{Json}
use tarwyn.Registry.FanOut.{frames_for}
use tarwyn.Registry.State.{Outbound, Routes}
use tarwyn.Transport.{Message, Client, deliver_from, deliver_all}
use tarwyn.Transport.Dispatch.{
  ConnectionMap, Clients, put_client, Planned, Group, plan, add_route, group_from, deliver_groups,
  deliver, dispatch,
}

unfoldable planned_for : ℕ → List Planned → List Outbound
planned_for id [] = []
planned_for id ((j, (address, outbound)) ∷ rest) =
    let more = planned_for id rest in if j == id then outbound ∷ more else more

unfoldable group_of : ℕ → List Group → List Outbound
group_of id [] = []
group_of id ((j, (address, outbounds)) ∷ groups) =
    let rest = group_of id groups in if j == id then outbounds else rest

planned_for-plan :
    (m : ConnectionMap) (id address : ℕ) (routes : Routes)
    → lookup id m.senders ≡ some address
    → planned_for id (plan m routes) ≡ frames_for id routes
unfolding planned_for plan frames_for
planned_for-plan m id address [] h = refl
planned_for-plan m id address ((j, o) ∷ routes) h =
    ground (arith, planned_for-plan m id address routes h, nat_eq.eqb_iff j id)

group_of-add_route :
    (id j address : ℕ) (o : Outbound) (groups : List Group)
    → group_of id (add_route j address o groups)
      ≡ (if j == id then group_of id groups ++ (o ∷ []) else group_of id groups)
unfolding group_of add_route
group_of-add_route id j address o [] = refl
group_of-add_route id j address o ((k, (a, os)) ∷ groups) = ground (
  arith,
  nat_eq.eqb_iff k j,
  nat_eq.eqb_iff k id,
  nat_eq.eqb_iff j id,
  group_of-add_route id j address o groups,
)

group_of-group_from :
    (id : ℕ) (rest : List Planned) (groups : List Group)
    → group_of id (group_from groups rest) ≡ group_of id groups ++ planned_for id rest
unfolding group_from planned_for
group_of-group_from id [] groups = sym (append-nil (group_of id groups))
group_of-group_from id ((j, (address, o)) ∷ rest) groups =
    group_of-group_from id rest (add_route j address o groups)
    ∙ ap (λ x. x ++ planned_for id rest) (group_of-add_route id j address o groups)
    ∙ elim (Bool-cases (j == id)) [
      | inl e ↦ rw e (append_assoc (group_of id groups) (o ∷ []) (planned_for id rest))
      | inr e ↦ rw e refl
    ]

group_of_one :
    (id j a : ℕ) (o : Outbound)
    → group_of id ((j, (a, o ∷ [])) ∷ []) ≡ planned_for id ((j, (a, o)) ∷ [])
unfolding group_of planned_for
group_of_one id j a o = refl

abbrev NotIn : ℕ → List Group → Type 0
NotIn id [] = Unit
NotIn id ((j, (address, outbounds)) ∷ groups) = ((j == id) ≡ false) × NotIn id groups

-- Groups of clients of the map, each client once.
abbrev Grouped : ConnectionMap → List Group → Type 0
Grouped m [] = Unit
Grouped m ((j, (address, outbounds)) ∷ groups) =
    (lookup j m.senders ≡ some address) × NotIn j groups × Grouped m groups

abbrev IsPlan : ConnectionMap → List Planned → Type 0
IsPlan m [] = Unit
IsPlan m ((j, (address, outbound)) ∷ rest) = (lookup j m.senders ≡ some address) × IsPlan m rest

plan-IsPlan : (m : ConnectionMap) (routes : Routes) → IsPlan m (plan m routes)
unfolding plan
plan-IsPlan m [] = tt
plan-IsPlan m ((j, o) ∷ routes) = elim (Option-cases (lookup j m.senders)) [
  | inl e ↦ rw (e, plan) (plan-IsPlan m routes)
  | inr (a, e) ↦ rw (e, plan) (e, plan-IsPlan m routes)
]

NotIn-add_route :
    (id j address : ℕ) (o : Outbound) (groups : List Group)
    → (j == id) ≡ false
    → NotIn id groups
    → NotIn id (add_route j address o groups)
unfolding add_route
NotIn-add_route id j address o [] e h = (e, tt)
NotIn-add_route id j address o ((k, (a, os)) ∷ groups) e (d, h) = elim (Bool-cases (k == j)) [
  | inl f ↦ rw (f, add_route) (d, h)
  | inr f ↦ rw (f, add_route) (d, NotIn-add_route id j address o groups e h)
]

add_route-Grouped :
    (m : ConnectionMap) (j address : ℕ) (o : Outbound) (groups : List Group)
    → lookup j m.senders ≡ some address
    → Grouped m groups
    → Grouped m (add_route j address o groups)
unfolding add_route
add_route-Grouped m j address o [] e h = (e, tt, tt)
add_route-Grouped m j address o ((k, (a, os)) ∷ groups) e (d, n, h) = elim (Bool-cases (k == j)) [
  | inl f ↦ rw (f, add_route) (d, n, h)
  | inr f ↦
      let g : (j == k) ≡ false = ground (arith, f, nat_eq.eqb_iff k j, nat_eq.eqb_iff j k) in
      rw (f, add_route)
        (d, NotIn-add_route k j address o groups g n, add_route-Grouped m j address o groups e h)
]

group_from-Grouped :
    (m : ConnectionMap) (rest : List Planned) (groups : List Group)
    → IsPlan m rest
    → Grouped m groups
    → Grouped m (group_from groups rest)
unfolding group_from
group_from-Grouped m [] groups p h = h
group_from-Grouped m ((j, (address, o)) ∷ rest) groups (e, p) h =
    group_from-Grouped m rest (add_route j address o groups) p
      (add_route-Grouped m j address o groups e h)

module _ {S : Type 0} (send : S → Message → S × Bool) (print : Json → Text) (m : ConnectionMap)
    (injective : (i j address : ℕ)
      → lookup i m.senders ≡ some address
      → lookup j m.senders ≡ some address
      → i ≡ j) where
  deliver_all-nil : (c : Client S) → (deliver_all send print [] c).0 ≡ c
  unfolding deliver_all deliver_from
  deliver_all-nil c = refl

  other_address :
      (i j a b : ℕ)
      → lookup i m.senders ≡ some a
      → lookup j m.senders ≡ some b
      → (i == j) ≡ false
      → (a == b) ≡ false
  other_address i j a b e f n = elim (Bool-cases (a == b)) [
    | inr d ↦ d
    | inl d ↦
        let same = injective i j b (e ∙ ap some ((nat_eq.eqb_iff a b).0 d)) f in
        absurd (cc ((nat_eq.eqb_iff i j).1 same, n))
  ]

  untouched :
      (id address : ℕ) (groups : List Group) (store : Clients S)
      → lookup id m.senders ≡ some address
      → Grouped m groups
      → NotIn id groups
      → (deliver_groups send print groups store).0 address ≡ store address
  unfolding deliver_groups
  untouched id address [] store e g n = refl
  untouched id address ((j, (a, os)) ∷ groups) store e (d, _, g) (f, n) =
      untouched id address groups (put_client a (deliver_all send print os (store a)).0 store) e g n
      ∙ ap (λ t. if t then (deliver_all send print os (store a)).0 else store address)
          (other_address j id a address d e f)

  put_client_self :
      (os : List Outbound) (store : Clients S) (a b : ℕ)
      → a ≡ b
      → put_client a (deliver_all send print os (store a)).0 store b
        ≡ (deliver_all send print os (store b)).0
  put_client_self os store a b e =
      subst
        (λ x.
          put_client a (deliver_all send print os (store a)).0 store x
          ≡ (deliver_all send print os (store x)).0)
        e (rw (eqb_refl a) refl)

  deliver_groups_lem :
      (id address : ℕ) (groups : List Group) (store : Clients S)
      → lookup id m.senders ≡ some address
      → Grouped m groups
      → (deliver_groups send print groups store).0 address
        ≡ (deliver_all send print (group_of id groups) (store address)).0
  unfolding deliver_groups group_of
  deliver_groups_lem id address [] store e g = sym (deliver_all-nil (store address))
  deliver_groups_lem id address ((j, (a, os)) ∷ groups) store e (d, n, g) =
      let next = put_client a (deliver_all send print os (store a)).0 store in
      elim (Bool-cases (j == id)) [
        | inl f ↦
            let same = (nat_eq.eqb_iff j id).0 f in
            let one : a ≡ address = cc (d, e, same) in
            rw f (
              untouched id address groups next e g (subst (λ x. NotIn x groups) same n)
              ∙ put_client_self os store a address one)
        | inr f ↦ rw f (
            deliver_groups_lem id address groups next e g
            ∙ ap
                (λ t.
                  (deliver_all send print (group_of id groups)
                    (if t then (deliver_all send print os (store a)).0 else store address)).0)
                (other_address j id a address d e f))
      ]

  deliver_lem :
      (id address : ℕ) (ps : List Planned) (store : Clients S)
      → lookup id m.senders ≡ some address
      → IsPlan m ps
      → (deliver send print ps store).0 address
        ≡ (deliver_all send print (planned_for id ps) (store address)).0
  unfolding deliver planned_for deliver_groups group_of
  deliver_lem id address [] store e p = sym (deliver_all-nil (store address))
  deliver_lem id address ((j, (a, o)) ∷ []) store e (d, _) =
      deliver_groups_lem id address ((j, (a, o ∷ [])) ∷ []) store e (d, tt, tt)
      ∙ ap (λ os. (deliver_all send print os (store address)).0) (group_of_one id j a o)
  deliver_lem id address (first ∷ second ∷ rest) store e p =
      deliver_groups_lem id address (group_from [] (first ∷ second ∷ rest)) store e
        (group_from-Grouped m (first ∷ second ∷ rest) [] p tt)
      ∙ ap (λ os. (deliver_all send print os (store address)).0)
          (group_of-group_from id (first ∷ second ∷ rest) [])

  -- In a map that gives no two ids one client, a dispatch does to each of its clients what a single
  -- delivery of just the frames routed to that client's id does, in their order, one of no frames
  -- leaving it as it was.
  pub dispatch-frames_for :
      (id address : ℕ) (routes : Routes) (store : Clients S)
      → lookup id m.senders ≡ some address
      → (dispatch send print routes m store).0 address
        ≡ (deliver_all send print (frames_for id routes) (store address)).0
  unfolding dispatch
  dispatch-frames_for id address routes store e =
      deliver_lem id address (plan m routes) store e (plan-IsPlan m routes)
      ∙ ap (λ os. (deliver_all send print os (store address)).0)
          (planned_for-plan m id address routes e)
