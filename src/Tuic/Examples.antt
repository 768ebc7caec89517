-- ===== src/Tuic/Examples.antt =====
-- The theorems on the UDP relay at concrete inputs: a network of names and raw addresses, and a
-- message of five bytes.
use ppanel_node.Base.{
  ℕ, ◌-◌, ◌≡◌, ◌≢◌, ◌<◌, refl, List, [], ◌∷◌, ◌++◌, Option, none, some, Bool, true, false, arith,
  length, nat_beq, if◌then◌else◌, drop, replicate,
}
use ppanel_node.Base.Map.{lookup}
use ppanel_node.Base.Eq.{nat_eq}
use ppanel_node.Tuic.Net.{XNet, XNetLaws, Family}
use ppanel_node.Tuic.Reader.{ok, write_u16}
use ppanel_node.Tuic.Protocol.{write_destination, write_address, destination_len, address_len}
use ppanel_node.Tuic.Message.{UdpMessage, header_size, pack, decode_udp_message}
use ppanel_node.Tuic.Message.RoundTrip.{IsWellSized, IsCarried, of_address, decode_udp_message-pack}
use ppanel_node.Tuic.Fragment.{pieces, number, frag_udp_message}
use ppanel_node.Tuic.Defrag.{UdpDefragger, fed, feed, new_udp_defragger}
use ppanel_node.Tuic.Defrag.Sound.{IsSound, new-IsSound, feed-IsSound}
use ppanel_node.Tuic.Defrag.Reassembly.{feed_all, mem, Todo}
use ppanel_node.Tuic.Transfer.{arrived, pick, frag_udp_message-reassembles}

pub data TestAddress : Type 0 where
  name raw : List ℕ → TestAddress

pub data TestDestination : Type 0 where
  nowhere : TestDestination
  over_tcp over_udp : TestAddress → ℕ → TestDestination

abbrev test_is_valid : TestDestination → Bool
test_is_valid nowhere = false
test_is_valid (over_tcp a p) = true
test_is_valid (over_udp a p) = true

abbrev test_address : TestDestination → TestAddress
test_address nowhere = name []
test_address (over_tcp a p) = a
test_address (over_udp a p) = a

abbrev test_port : TestDestination → ℕ
test_port nowhere = 0
test_port (over_tcp a p) = p
test_port (over_udp a p) = p

abbrev test_family : TestAddress → Family
test_family (name bytes) = Family.domain
test_family (raw bytes) =
    if nat_beq (length bytes) 4
    then Family.ipv4
    else if nat_beq (length bytes) 16
    then Family.ipv6
    else Family.other

abbrev bytes_of : TestAddress → List ℕ
bytes_of (name bytes) = bytes
bytes_of (raw bytes) = bytes

abbrev pub test_net : XNet
test_net = record {
  Address = TestAddress;
  Destination = TestDestination;
  zero_destination = nowhere;
  is_valid = test_is_valid;
  address = test_address;
  port = test_port;
  family = test_family;
  domain_of = bytes_of;
  to4 = bytes_of;
  to16 = bytes_of;
  domain_address = name;
  ip_address = raw;
  tcp_destination = over_tcp;
  udp_destination = over_udp;
}

test_domain_raw : (a : TestAddress) → test_family a ≡ Family.domain → name (bytes_of a) ≡ a
test_domain_raw (name bytes) e = refl
test_domain_raw (raw bytes) e = ground arith

test_ipv4_raw : (a : TestAddress) → test_family a ≡ Family.ipv4 → raw (bytes_of a) ≡ a
test_ipv4_raw (name bytes) e = cc
test_ipv4_raw (raw bytes) e = refl

test_ipv4_length : (a : TestAddress) → test_family a ≡ Family.ipv4 → length (bytes_of a) ≡ 4
test_ipv4_length (name bytes) e = cc
test_ipv4_length (raw bytes) e = ground arith

test_ipv6_raw : (a : TestAddress) → test_family a ≡ Family.ipv6 → raw (bytes_of a) ≡ a
test_ipv6_raw (name bytes) e = cc
test_ipv6_raw (raw bytes) e = refl

test_ipv6_length : (a : TestAddress) → test_family a ≡ Family.ipv6 → length (bytes_of a) ≡ 16
test_ipv6_length (name bytes) e = cc
test_ipv6_length (raw bytes) e = ground arith

pub test_laws : XNetLaws test_net
test_laws = record {
  zero_invalid = refl;
  udp_valid = λ a p. refl;
  udp_address = λ a p. refl;
  udp_port = λ a p. refl;
  domain_raw = test_domain_raw;
  ipv4_raw = test_ipv4_raw;
  ipv4_length = test_ipv4_length;
  ipv6_raw = test_ipv6_raw;
  ipv6_length = test_ipv6_length;
}

abbrev dns_address : TestAddress
dns_address = raw (1 ∷ 2 ∷ 3 ∷ 4 ∷ [])

abbrev dns_bytes : List ℕ
dns_bytes = 1 ∷ 1 ∷ 2 ∷ 3 ∷ 4 ∷ 0 ∷ 53 ∷ []

dns_written : write_destination test_net (over_udp dns_address 53) ≡ ok dns_bytes
unfolding write_destination write_address write_u16
dns_written = refl

known_family : Family.ipv4 ≢ Family.other
known_family e = cc

abbrev pub message : UdpMessage TestDestination
message = record {
  session_id = 258;
  packet_id = 3;
  fragment_total = 1;
  fragment_id = 0;
  destination = over_udp dns_address 53;
  data_bytes = 7 ∷ 8 ∷ 9 ∷ 10 ∷ 11 ∷ [];
}

abbrev pub packed : List ℕ
packed =
    5 ∷ 2 ∷ 1 ∷ 2 ∷ 0 ∷ 3 ∷ 1 ∷ 0 ∷ 0 ∷ 5 ∷ 1 ∷ 1 ∷ 2 ∷ 3 ∷ 4 ∷ 0 ∷ 53 ∷ 7 ∷ 8 ∷ 9 ∷ 10 ∷ 11 ∷ []

message-packed : pack test_net message ≡ ok packed
unfolding pack write_destination write_address write_u16
message-packed = refl

message-IsWellSized : IsWellSized message
message-IsWellSized = record {
  session_fits = omega arith;
  packet_fits = omega arith;
  total_fits = omega arith;
  id_fits = omega arith;
  data_fits = omega arith;
}

message-IsCarried : IsCarried test_net test_laws (over_udp dns_address 53)
message-IsCarried = of_address dns_address 53 known_family (omega arith)

decode_udp_message-pack_example : decode_udp_message test_net (drop 2 packed) ≡ ok (message, [])
decode_udp_message-pack_example =
    decode_udp_message-pack test_net test_laws message packed message-IsWellSized message-IsCarried
      message-packed

message_header : header_size test_net message ≡ 17
unfolding header_size destination_len address_len
message_header = refl

message_roomy : header_size test_net message < 19
message_roomy = omega (arith, message_header)

-- Two bytes of data to a fragment make three fragments.
three_fragments : length (frag_udp_message test_net message 19) ≡ 3
unfolding frag_udp_message pieces number header_size destination_len address_len
three_fragments = refl

feed-IsSound_example :
    (d' : UdpDefragger TestDestination) × (o : Option (UdpMessage TestDestination)) × (feed
        new_udp_defragger
        (record message { fragment_total = 3; fragment_id = 2 })
      ≡ fed d' o)
    × IsSound d'
feed-IsSound_example =
    feed-IsSound new_udp_defragger (record message { fragment_total = 3; fragment_id = 2 })
      new-IsSound (omega arith)

message_long : 19 - header_size test_net message < length message.data_bytes
message_long = rw message_header (omega arith)

few_fragments : length (frag_udp_message test_net message 19) < 256
few_fragments = rw three_fragments (omega arith)

none_waiting : lookup message.packet_id (new_udp_defragger {D = TestDestination}).packet_map ≡ none
unfolding lookup new_udp_defragger
none_waiting = refl

any_order : Todo (length (frag_udp_message test_net message 19)) [] (2 ∷ 0 ∷ 1 ∷ [])
unfolding mem
any_order = rw three_fragments (omega arith, refl, (omega arith, refl, (omega arith, refl, tt)))

frag_udp_message-reassembles_example :
    (d' : UdpDefragger TestDestination) × (feed_all new_udp_defragger
        (pick (frag_udp_message test_net message 19) message (2 ∷ 0 ∷ 1 ∷ []))
      ≡ some (
        d',
        replicate (length (frag_udp_message test_net message 19) - 1) none
            ++ some (arrived test_net message 19 message_roomy message_long) ∷ [],
      ))
    × (lookup message.packet_id d'.packet_map ≡ none)
frag_udp_message-reassembles_example =
    frag_udp_message-reassembles test_net message 19 message_roomy message_long (2 ∷ 0 ∷ 1 ∷ [])
      new_udp_defragger few_fragments none_waiting any_order (rw three_fragments refl)
