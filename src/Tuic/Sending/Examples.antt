-- ===== src/Tuic/Sending/Examples.antt =====
-- Sending at a concrete input: QUIC refuses what is longer than 19 bytes.
use ppanel_node.Base.{
  ℕ, suc, ◌≡◌, ◌≤◌, refl, true, false, [], ◌∷◌, some, arith, All, ltb, length, if◌then◌else◌,
}
use ppanel_node.Tuic.Reader.{write_u16}
use ppanel_node.Tuic.Protocol.{write_destination, write_address, destination_len, address_len}
use ppanel_node.Tuic.Message.{header_size, pack}
use ppanel_node.Tuic.Fragment.{pieces, number, frag_udp_message}
use ppanel_node.Tuic.Sending.{
  Quic, Sender, sent, too_large, write_packet, write_packets, first_attempt,
  write_packet_or_fragments,
}
use ppanel_node.Tuic.Sending.{conn_closed, send_packet}
use ppanel_node.Tuic.Sending.Fit.{write_packet_or_fragments_fit}
use ppanel_node.Tuic.Examples.{test_net, test_laws, message}

abbrev narrow : Quic
narrow = record {
  State = ℕ;
  send = λ s udp_stream bytes. (suc s, if ltb 19 (length bytes) then too_large 22 else sent);
}

abbrev sender : Sender
sender = record {
  session_id = 258;
  udp_stream = false;
  is_done = false;
  udp_mtu = 40;
  packet_id = 0;
}

-- One datagram of 22 bytes is refused; fragments of at most 19 bytes follow.
sent_four : (write_packet_or_fragments test_net narrow 0 sender message).1.0 ≡ 4
unfolding write_packet_or_fragments first_attempt write_packet write_packets pack frag_udp_message
    pieces number header_size destination_len address_len write_destination write_address write_u16
sent_four = refl

new_mtu : (write_packet_or_fragments test_net narrow 0 sender message).0.udp_mtu ≡ 19
unfolding write_packet_or_fragments first_attempt write_packet write_packets pack frag_udp_message
    pieces number header_size destination_len address_len write_destination write_address write_u16
new_mtu = refl

-- A closed connection sends nothing and uses no packet id.
closed_sends_nothing :
    send_packet test_net narrow 0 (record sender { is_done = true }) (7 ∷ []) message.destination
    ≡ (record sender { is_done = true }, (0, [], some conn_closed))
unfolding send_packet
closed_sends_nothing = refl

-- The packet id of a packet that is written counts up.
counts_up : (send_packet test_net narrow 0 sender (7 ∷ []) message.destination).0.packet_id ≡ 1
unfolding send_packet write_packet_or_fragments first_attempt write_packet write_packets pack
    frag_udp_message pieces number header_size destination_len address_len write_destination
    write_address write_u16
counts_up = refl

message_header : header_size test_net message ≡ 17
unfolding header_size destination_len address_len
message_header = refl

write_packet_or_fragments_fit_example :
    All (λ b. length b ≤ 40) (write_packet_or_fragments test_net narrow 0 sender message).1.1
write_packet_or_fragments_fit_example =
    write_packet_or_fragments_fit test_net narrow test_laws 0 sender message 40 refl
      (omega (arith, message_header)) (omega arith) (omega (arith, message_header, new_mtu))
      (omega (arith, new_mtu))
