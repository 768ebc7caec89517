-- ===== src/Tuic/Net.antt =====
-- What core/transport/tuic uses of xray-core's common/net, as an interface: addresses, destinations
-- and the documented behaviour of their constructors and readers.
use ppanel_node.Base.{ℕ, ◌≡◌, Bool, true, false, List, length}

-- `Address.Family()`: `IsDomain`, `IsIPv4` and `IsIPv6` tell the first three; `other` is a family
-- for which all three say no.
pub data Family : Type 0 where
  domain ipv4 ipv6 other : Family

pub record XNet : Type 1 where
  pub Address : Type 0
  pub Destination : Type 0
  pub zero_destination : Destination
  pub is_valid : Destination → Bool
  pub address : Destination → Address
  pub port : Destination → ℕ
  pub family : Address → Family
  pub domain_of : Address → List ℕ
  pub to4 : Address → List ℕ
  pub to16 : Address → List ℕ
  pub domain_address : List ℕ → Address
  pub ip_address : List ℕ → Address
  pub tcp_destination : Address → ℕ → Destination
  pub udp_destination : Address → ℕ → Destination

-- An address is what its constructor makes of its raw bytes; the zero destination has the unknown
-- network, and so is not valid.
pub record XNetLaws (x : XNet) : Type 0 where
  pub zero_invalid : x.is_valid x.zero_destination ≡ false
  pub udp_valid : (a : x.Address) (p : ℕ) → x.is_valid (x.udp_destination a p) ≡ true
  pub udp_address : (a : x.Address) (p : ℕ) → x.address (x.udp_destination a p) ≡ a
  pub udp_port : (a : x.Address) (p : ℕ) → x.port (x.udp_destination a p) ≡ p
  pub domain_raw :
      (a : x.Address) → x.family a ≡ Family.domain → x.domain_address (x.domain_of a) ≡ a
  pub ipv4_raw : (a : x.Address) → x.family a ≡ Family.ipv4 → x.ip_address (x.to4 a) ≡ a
  pub ipv4_length : (a : x.Address) → x.family a ≡ Family.ipv4 → length (x.to4 a) ≡ 4
  pub ipv6_raw : (a : x.Address) → x.family a ≡ Family.ipv6 → x.ip_address (x.to16 a) ≡ a
  pub ipv6_length : (a : x.Address) → x.family a ≡ Family.ipv6 → length (x.to16 a) ≡ 16
