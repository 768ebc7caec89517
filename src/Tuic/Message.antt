-- ===== src/Tuic/Message.antt =====
-- core/transport/tuic/packet.go: the UDP relay message and its encoding.
pub mod RoundTrip
use ppanel_node.Base.{ℕ, ◌+◌, ◌%◌, Bool, List, [], ◌∷◌, ◌++◌, if◌then◌else◌, nat_beq, length}
use ppanel_node.Tuic.Net.{XNet}
use ppanel_node.Tuic.Reader.{
  Read, Result, ok, err, unexpected_eof, ◌>>=◌, pure, read_full, read_u8, read_u16, write_u16,
}
use ppanel_node.Tuic.Protocol.{
  Network, tuic_version, command_packet, read_destination, write_destination, destination_len,
}

-- `udpMessage`, over the type of destinations. The ids are 16-bit, the fragment fields 8-bit.
pub record UdpMessage (D : Type 0) : Type 0 where
  pub session_id : ℕ
  pub packet_id : ℕ
  pub fragment_total : ℕ
  pub fragment_id : ℕ
  pub destination : D
  pub data_bytes : List ℕ

module _ (x : XNet) where
  unfoldable pub header_size : UdpMessage x.Destination → ℕ
  header_size m = 10 + destination_len x m.destination

  abbrev pub pack_with : UdpMessage x.Destination → Result (List ℕ) → Result (List ℕ)
  pack_with m (ok destination) = ok (
      tuic_version
      ∷ command_packet
      ∷ (write_u16 m.session_id
          ++ (write_u16 m.packet_id
              ++ (m.fragment_total % 256
                  ∷ m.fragment_id % 256
                  ∷ (write_u16 (length m.data_bytes) ++ (destination ++ m.data_bytes))))))
  pack_with m (err e) = err e

  -- `uint16(len(m.data))` keeps the low 16 bits, which `write_u16` does.
  unfoldable pub pack : UdpMessage x.Destination → Result (List ℕ)
  pack m = pack_with m (write_destination x m.destination)

  -- The five numbers that both readers begin with.
  unfoldable pub read_header : {A : Type 0} → (ℕ → ℕ → ℕ → ℕ → ℕ → Read A) → Read A
  read_header k = do
    session_id ← read_u16
    packet_id ← read_u16
    fragment_total ← read_u8
    fragment_id ← read_u8
    data_length ← read_u16
    k session_id packet_id fragment_total fragment_id data_length

  unfoldable pub read_udp_message : Read (UdpMessage x.Destination)
  read_udp_message = read_header λ session_id packet_id fragment_total fragment_id data_length. do
    destination ← read_destination x Network.udp
    data_bytes ← read_full data_length
    pure (record {
      session_id = session_id;
      packet_id = packet_id;
      fragment_total = fragment_total;
      fragment_id = fragment_id;
      destination = destination;
      data_bytes = data_bytes;
    })

  -- `reader.Len()`, and what is left as the data, are read off the parser's rest.
  abbrev pub exactly : ℕ → Read (List ℕ)
  exactly n bytes = if nat_beq (length bytes) n then ok (bytes, []) else err unexpected_eof

  unfoldable pub decode_udp_message : Read (UdpMessage x.Destination)
  decode_udp_message = read_header λ session_id packet_id fragment_total fragment_id data_length. do
    destination ← read_destination x Network.udp
    data_bytes ← exactly data_length
    pure (record {
      session_id = session_id;
      packet_id = packet_id;
      fragment_total = fragment_total;
      fragment_id = fragment_id;
      destination = destination;
      data_bytes = data_bytes;
    })
