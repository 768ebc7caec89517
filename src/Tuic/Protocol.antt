-- ===== src/Tuic/Protocol.antt =====
-- core/transport/tuic/protocol.go: destinations on the wire.
pub mod RoundTrip
use ppanel_node.Base.{
  ℕ, ◌+◌, Bool, true, false, List, [], ◌∷◌, ◌++◌, if◌then◌else◌, ltb, nat_beq, length,
}
use ppanel_node.Tuic.Net.{XNet, Family}
use ppanel_node.Tuic.Reader.{
  Error, Read, Result, ok, err, unexpected_eof, short_buffer, ◌>>=◌, pure, fail, read_full, read_u8,
  read_u16, write_u16,
}

abbrev pub tuic_version : ℕ
tuic_version = 5

abbrev pub command_authenticate : ℕ
command_authenticate = 0

abbrev pub command_connect : ℕ
command_connect = 1

abbrev pub command_packet : ℕ
command_packet = 2

abbrev pub command_dissociate : ℕ
command_dissociate = 3

abbrev pub command_heartbeat : ℕ
command_heartbeat = 4

abbrev pub authenticate_len : ℕ
authenticate_len = 2 + 16 + 32

abbrev pub address_type_domain : ℕ
address_type_domain = 0x00

abbrev pub address_type_ipv4 : ℕ
address_type_ipv4 = 0x01

abbrev pub address_type_ipv6 : ℕ
address_type_ipv6 = 0x02

abbrev pub address_type_none : ℕ
address_type_none = 0xff

-- `Network_TCP` and `Network_UDP`; `other_network` is any other value of xnet.Network.
pub data Network : Type 0 where
  tcp udp other_network : Network

module _ (x : XNet) where
  unfoldable pub destination_from_address : Network → x.Address → ℕ → x.Destination
  destination_from_address Network.tcp a p = x.tcp_destination a p
  destination_from_address Network.udp a p = x.udp_destination a p
  destination_from_address Network.other_network a p = x.zero_destination

  unfoldable pub read_domain : Network → Read x.Destination
  read_domain network = do
    len ← read_u8
    domain ← read_full len
    port ← read_u16
    pure (destination_from_address network (x.domain_address domain) port)

  unfoldable pub read_ip : Network → ℕ → Read x.Destination
  read_ip network size = do
    ip ← read_full size
    port ← read_u16
    pure (destination_from_address network (x.ip_address ip) port)

  unfoldable pub read_destination : Network → Read x.Destination
  unfolding read_domain read_ip
  read_destination network = do
    kind ← read_u8
    if nat_beq kind address_type_none
        then pure x.zero_destination
        else if nat_beq kind address_type_domain
        then read_domain network
        else if nat_beq kind address_type_ipv4
        then read_ip network 4
        else if nat_beq kind address_type_ipv6
        then read_ip network 16
        else fail unexpected_eof

  -- The writer is a bytes.Buffer, which takes every write.
  unfoldable pub write_address : Family → x.Destination → Result (List ℕ)
  write_address Family.domain d =
      let name = x.domain_of (x.address d) in
      if ltb 255 (length name)
      then err short_buffer
      else ok (address_type_domain ∷ length name ∷ (name ++ write_u16 (x.port d)))
  write_address Family.ipv4 d =
      ok (address_type_ipv4 ∷ (x.to4 (x.address d) ++ write_u16 (x.port d)))
  write_address Family.ipv6 d =
      ok (address_type_ipv6 ∷ (x.to16 (x.address d) ++ write_u16 (x.port d)))
  write_address Family.other d = ok (address_type_none ∷ [])

  unfoldable pub write_destination : x.Destination → Result (List ℕ)
  unfolding write_address
  write_destination d =
      if x.is_valid d then write_address (x.family (x.address d)) d else ok (address_type_none ∷ [])

  unfoldable pub address_len : Family → x.Destination → ℕ
  address_len Family.domain d = 1 + 1 + length (x.domain_of (x.address d)) + 2
  address_len Family.ipv4 d = 1 + 4 + 2
  address_len Family.ipv6 d = 1 + 16 + 2
  address_len Family.other d = 1

  unfoldable pub destination_len : x.Destination → ℕ
  unfolding address_len
  destination_len d = if x.is_valid d then address_len (x.family (x.address d)) d else 1
