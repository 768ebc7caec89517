-- ===== src/Dispatcher/Override/Laws.antt =====
-- What sniffing can change of the destination of a link.
use ppanel_node.Base.{
  String, Option, none, some, Bool, if◌then◌else◌, true, false, not, ◌&&◌, ◌≡◌, ◌≢◌, refl, inl, inr,
  Bool-cases,
}
use ppanel_node.Base.Eq.{◌==◌, string_eq}
use ppanel_node.Dispatcher.Sniffer.{SniffResult, domain_of, protocol_for_domain, Answer}
use ppanel_node.Dispatcher.Override.{
  Addresses, Destination, SniffingRequest, Outbound, is_fake_ip, should_override, retarget,
  apply_sniffed, aim,
}

module _ (a : Addresses) where
  -- Both places where a destination can be written keep its network and its port.
  abbrev KeepsPort : Destination a → Outbound a → Type 0
  KeepsPort d ob =
      (ob.original_target ≡ d) × (ob.target.port ≡ d.port) × (ob.target.network ≡ d.network)

  retarget-KeepsPort :
      (fdns : Option (a.Address → Bool)) (r : SniffResult) (request : SniffingRequest a)
      (d : Destination a) (ob : Outbound a)
      → KeepsPort d ob
      → KeepsPort d (retarget a fdns r request d ob)
  unfolding retarget
  retarget-KeepsPort fdns r request d ob (o, p, n) =
      elim (Bool-cases (
        request.route_only
        && (not (protocol_for_domain r == "fakedns")
            && (not (protocol_for_domain r == "fakedns+others")
                && not (is_fake_ip a fdns ob.target.address))))) [
                  | inl only ↦ rw only (o, p, n)
                  | inr both ↦ rw both (o, refl, refl)
                ]

  -- Whatever is sniffed, the original target stays, and of the target only the address can change.
  pub apply_sniffed-KeepsPort :
      (fdns : Option (a.Address → Bool)) (request : SniffingRequest a) (d : Destination a)
      (ob : Outbound a) (answer : Answer)
      → KeepsPort d (apply_sniffed a fdns request d (aim a d ob) answer).0
  unfolding apply_sniffed
  apply_sniffed-KeepsPort fdns request d ob (some r, none) =
      elim (Bool-cases (should_override a fdns r request d)) [
        | inl yes_ ↦ rw yes_ (retarget-KeepsPort fdns r request d (aim a d ob) (refl, refl, refl))
        | inr no_ ↦ rw no_ (refl, refl, refl)
      ]
  apply_sniffed-KeepsPort fdns request d ob (none, none) = (refl, refl, refl)
  apply_sniffed-KeepsPort fdns request d ob (r, some e) = (refl, refl, refl)

  str_ne : (s t : String) → s ≢ t → (s == t) ≡ false
  str_ne s t differ = elim (Bool-cases (s == t)) [
    | inl same ↦ absurd (differ ((string_eq.beq_iff s t).0 same))
    | inr no_ ↦ no_
  ]

  -- An answer that does not come from a fake DNS engine.
  abbrev NoFakeDns : Answer → Type 0
  NoFakeDns (some r, e) =
      (protocol_for_domain r ≢ "fakedns") × (protocol_for_domain r ≢ "fakedns+others")
  NoFakeDns (none, e) = Unit {0}

  -- What the router is told: the sniffed domain with the port and the network of the destination, where
  -- the destination is to be overridden, and otherwise what it was told before.
  abbrev pub told :
      Option (a.Address → Bool)
      → SniffingRequest a
      → Destination a
      → Option (Destination a)
      → Answer
      → Option (Destination a)
  told fdns request d old (some r, none) =
      if should_override a fdns r request d
      then some (record d { address = a.parse_address (domain_of r) })
      else old
  told fdns request d old (none, none) = old
  told fdns request d old (r, some e) = old

  pub apply_sniffed_route_only :
      (fdns : Option (a.Address → Bool)) (request : SniffingRequest a) (d : Destination a)
      (ob : Outbound a) (answer : Answer)
      → request.route_only ≡ true
      → is_fake_ip a fdns d.address ≡ false
      → NoFakeDns answer
      → (apply_sniffed a fdns request d (aim a d ob) answer).0
        ≡ record (aim a d ob) { route_target = told fdns request d ob.route_target answer }
  unfolding apply_sniffed retarget
  apply_sniffed_route_only fdns request d ob (some r, none) only real (p, q) =
      elim (Bool-cases (should_override a fdns r request d)) [
        | inl yes_ ↦
            rw
              (
                yes_,
                only,
                real,
                str_ne (protocol_for_domain r) "fakedns" p,
                str_ne (protocol_for_domain r) "fakedns+others" q,
              )
              refl
        | inr no_ ↦ rw no_ refl
      ]
  apply_sniffed_route_only fdns request d ob (none, none) only real p = refl
  apply_sniffed_route_only fdns request d ob (r, some e) only real p = refl
