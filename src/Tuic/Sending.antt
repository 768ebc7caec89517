-- ===== src/Tuic/Sending.antt =====
-- core/transport/tuic/packet.go: the sending side of `udpPacketConn`. QUIC is the parameter `Quic`; the
-- datagrams and stream payloads that are handed to it are listed.
pub mod Fit
mod Examples
use ppanel_node.Base.{
  ℕ, ◌+◌, ◌-◌, ◌%◌, ◌^◌, Bool, true, false, not, ◌&&◌, Option, none, some, List, [], ◌∷◌, ◌++◌,
  if◌then◌else◌, ltb, length,
}
use ppanel_node.Tuic.Net.{XNet}
use ppanel_node.Tuic.Reader.{Error, Result, ok, err}
use ppanel_node.Tuic.Message.{UdpMessage, header_size, pack}
use ppanel_node.Tuic.Fragment.{frag_udp_message}

-- What `SendDatagram`, or a write to a new stream, returns; `too_large` carries the maximal payload.
pub data Sent : Type 0 where
  sent send_failed : Sent
  too_large : ℕ → Sent

-- `send` tells by its Boolean whether a stream is used.
pub record Quic : Type 1 where
  pub State : Type 0
  pub send : State → Bool → List ℕ → State × Sent

pub data SendError : Type 0 where
  conn_closed invalid_destination quic_failed : SendError
  datagram_too_large : ℕ → SendError
  packing : Error → SendError

-- The fields of `udpPacketConn` that sending uses.
pub record Sender : Type 0 where
  pub session_id : ℕ
  pub udp_stream : Bool
  pub is_done : Bool
  pub udp_mtu : ℕ
  pub packet_id : ℕ

module _ (x : XNet) (q : Quic) where
  -- The state of QUIC afterwards, what was handed to it, and the error or nil.
  abbrev pub Written : Type 0
  Written = q.State × List (List ℕ) × Option SendError

  abbrev error_of : Sent → Option SendError
  error_of sent = none
  error_of send_failed = some quic_failed
  error_of (too_large max) = some (datagram_too_large max)

  abbrev write_packed : q.State → Bool → Result (List ℕ) → Written
  write_packed s udp_stream (err e) = (s, [], some (packing e))
  write_packed s udp_stream (ok bytes) =
      let (s', r) = q.send s udp_stream bytes in (s', bytes ∷ [], error_of r)

  unfoldable pub write_packet : q.State → Bool → UdpMessage x.Destination → Written
  unfolding pack
  write_packet s udp_stream m = write_packed s udp_stream (pack x m)

  abbrev next_packet : Written → (q.State → Written) → Written
  next_packet (s, out, some e) rest = (s, out, some e)
  next_packet (s, out, none) rest = let (s', more, e) = rest s in (s', out ++ more, e)

  unfoldable pub write_packets : q.State → Bool → List (UdpMessage x.Destination) → Written
  unfolding write_packet
  write_packets s udp_stream [] = (s, [], none)
  write_packets s udp_stream (m ∷ ms) =
      next_packet (write_packet s udp_stream m) (λ s'. write_packets s' udp_stream ms)

  -- A datagram that is too large sets the packet size for the second and last attempt.
  abbrev retry : Sender → UdpMessage x.Destination → Written → Sender × Written
  retry c m (s, out, some (datagram_too_large max)) =
      let (s', more, e) = write_packets s c.udp_stream (frag_udp_message x m (max - 3)) in
      (record c { udp_mtu = max - 3 }, (s', out ++ more, e))
  retry c m w = (c, w)

  -- The first attempt: fragments if the message is too long for a datagram.
  unfoldable pub first_attempt : q.State → Sender → UdpMessage x.Destination → Written
  unfolding write_packets header_size frag_udp_message
  first_attempt s c m =
      if not c.udp_stream && ltb c.udp_mtu (header_size x m + length m.data_bytes)
      then write_packets s c.udp_stream (frag_udp_message x m c.udp_mtu)
      else write_packet s c.udp_stream m

  unfoldable pub write_packet_or_fragments :
      q.State → Sender → UdpMessage x.Destination → Sender × Written
  unfolding first_attempt
  write_packet_or_fragments s c m = retry c m (first_attempt s c m)

  -- `WritePacket`: the packet id counts up in 32 bits and is sent modulo 65535.
  unfoldable pub send_packet : q.State → Sender → List ℕ → x.Destination → Sender × Written
  unfolding write_packet_or_fragments
  send_packet s c bytes destination =
      let count = (c.packet_id + 1) % 2 ^ 32 in
      let m : UdpMessage x.Destination = record {
        session_id = c.session_id;
        packet_id = count % 65535;
        fragment_total = 1;
        fragment_id = 0;
        destination = destination;
        data_bytes = bytes;
      } in
      if c.is_done
      then (c, (s, [], some conn_closed))
      else if ltb 65535 (length bytes)
      then (c, (s, [], some (datagram_too_large 65535)))
      else if x.is_valid destination
      then write_packet_or_fragments s (record c { packet_id = count }) m
      else (c, (s, [], some invalid_destination))
