-- ===== src/Dispatcher/Override.antt =====
-- core/app/dispatcher/default.go: `shouldOverride`, and what `Dispatch` and `DispatchLink` make of a
-- sniffed domain. Addresses are the parameter `Addresses`; `Option` stands for matchers that may be nil.
pub mod Laws
use ppanel_node.Base.{
  ℕ, String, Option, none, some, List, [], ◌∷◌, Bool, true, false, not, ◌&&◌, ◌||◌, if◌then◌else◌,
}
use ppanel_node.Base.Eq.{◌==◌, string_eq}
use ppanel_node.Base.Text.{has_prefix, to_lower}
use ppanel_node.Dispatcher.Sniffer.{
  Network, SniffResult, protocol_of, domain_of, protocol_for_domain, is_proto_subset_of, Answer,
}

-- What the code uses of net.Address of xray-core.
pub record Addresses : Type 1 where
  pub Address : Type 0
  pub is_ip : Address → Bool
  pub parse_address : String → Address

module _ (a : Addresses) where
  pub record Destination : Type 0 where
    pub address : a.Address
    pub port : ℕ
    pub network : Network

  pub record SniffingRequest : Type 0 where
    pub enabled : Bool
    pub metadata_only : Bool
    pub route_only : Bool
    pub exclude_for_domain : Option (String → Bool)
    pub exclude_for_ip : Option (a.Address → Bool)
    pub override_destination_for_protocol : List String

  -- `session.Outbound`; `RouteTarget` is invalid until it is set.
  pub record Outbound : Type 0 where
    pub original_target : Destination
    pub target : Destination
    pub route_target : Option Destination
    pub tag : String

  abbrev is_excluded : {A : Type 0} → Option (A → Bool) → A → Bool
  is_excluded none x = false
  is_excluded (some match) x = match x

  -- Whether the fake DNS engine knows pools, and the address is in one.
  abbrev pub is_fake_ip : Option (a.Address → Bool) → a.Address → Bool
  is_fake_ip none address = false
  is_fake_ip (some in_pool) address = a.is_ip address && in_pool address

  abbrev overrides : Option (a.Address → Bool) → SniffResult → String → Destination → String → Bool
  overrides fdns result protocol destination p =
      (has_prefix protocol p || has_prefix p protocol)
      || ((not (protocol == "bittorrent")
            && (p == "fakedns" && is_fake_ip fdns destination.address))
          || is_proto_subset_of result p)

  unfoldable pub any_override :
      Option (a.Address → Bool) → SniffResult → String → Destination → List String → Bool
  unfolding has_prefix is_proto_subset_of
  any_override fdns result protocol destination [] = false
  any_override fdns result protocol destination (p ∷ ps) =
      overrides fdns result protocol destination p
      || any_override fdns result protocol destination ps

  unfoldable pub should_override :
      Option (a.Address → Bool) → SniffResult → SniffingRequest → Destination → Bool
  unfolding domain_of protocol_for_domain any_override to_lower
  should_override fdns result request destination =
      if domain_of result == ""
      then false
      else if is_excluded request.exclude_for_domain (to_lower (domain_of result))
      then false
      else if a.is_ip destination.address && is_excluded request.exclude_for_ip destination.address
      then false
      else any_override fdns result (protocol_for_domain result) destination
          request.override_destination_for_protocol

  -- Where an overridden destination goes: to the router only, or to the connection.
  unfoldable pub retarget :
      Option (a.Address → Bool) → SniffResult → SniffingRequest → Destination → Outbound → Outbound
  unfolding domain_of protocol_for_domain
  retarget fdns result request destination ob =
      let sniffed : Destination = record destination {
        address = a.parse_address (domain_of result);
      } in
      let protocol = protocol_for_domain result in
      if request.route_only
        && (not (protocol == "fakedns")
            && (not (protocol == "fakedns+others") && not (is_fake_ip fdns ob.target.address)))
      then record ob { route_target = some sniffed }
      else record ob { target = sniffed }

  -- After sniffing: the outbound, and the protocol for the content of the session, `none` where it
  -- stays. Sniffing never gives neither result nor error (`sniff_link-IsAnswer`).
  unfoldable pub apply_sniffed :
      Option (a.Address → Bool)
      → SniffingRequest
      → Destination
      → Outbound
      → Answer
      → Outbound × Option String
  unfolding protocol_of should_override retarget
  apply_sniffed fdns request destination ob (some r, none) = (
    if should_override fdns r request destination
        then retarget fdns r request destination ob
        else ob,
    some (protocol_of r),
  )
  apply_sniffed fdns request destination ob (none, none) = (ob, none)
  apply_sniffed fdns request destination ob (r, some e) = (ob, none)

  -- The outbound that `Dispatch` and `DispatchLink` start from.
  abbrev pub aim : Destination → Outbound → Outbound
  aim destination ob = record ob { original_target = destination; target = destination }
