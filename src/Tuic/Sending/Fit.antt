-- ===== src/Tuic/Sending/Fit.antt =====
-- The datagrams of a message fit the packet size.
use ppanel_node.Base.{
  ℕ, ◌+◌, ◌-◌, ◌≤◌, ◌<◌, ◌≡◌, refl, inl, inr, Bool, false, none, some, List, [], ◌∷◌, ◌++◌, arith,
  All, ltb, length, Bool-cases,
}
use ppanel_node.Tuic.Net.{XNet, XNetLaws}
use ppanel_node.Tuic.Reader.{Result, ok, err}
use ppanel_node.Tuic.Message.{UdpMessage, header_size, pack}
use ppanel_node.Tuic.Message.RoundTrip.{length-pack}
use ppanel_node.Tuic.Fragment.{frag_udp_message}
use ppanel_node.Tuic.Fragment.Laws.{frag_udp_message_fit}
use ppanel_node.Tuic.Sending.{
  Quic, conn_closed, invalid_destination, quic_failed, datagram_too_large, packing, Sender, Written,
  write_packed, write_packet, next_packet, write_packets, retry, first_attempt,
  write_packet_or_fragments,
}

All-append :
    (n : ℕ) (xs ys : List (List ℕ))
    → All (λ b. length b ≤ n) xs
    → All (λ b. length b ≤ n) ys
    → All (λ b. length b ≤ n) (xs ++ ys)
All-append n [] ys a b = b
All-append n (x ∷ xs) ys (h, a) b = (h, All-append n xs ys a b)

All-weaken :
    (k n : ℕ) (xs : List (List ℕ)) → k ≤ n → All (λ b. length b ≤ k) xs → All (λ b. length b ≤ n) xs
All-weaken k n [] h a = tt
All-weaken k n (x ∷ xs) h (here, a) = (omega arith, All-weaken k n xs h a)

module _ (x : XNet) (q : Quic) (laws : XNetLaws x) where
  write_packed_fit :
      (s : q.State) (udp_stream : Bool) (m : UdpMessage x.Destination) (r : Result (List ℕ)) (n : ℕ)
      → pack x m ≡ r
      → header_size x m + length m.data_bytes ≤ n
      → All (λ b. length b ≤ n) (write_packed x q s udp_stream r).1
  write_packed_fit s udp_stream m (err e) n p h = tt
  write_packed_fit s udp_stream m (ok bytes) n p h =
      (omega (arith, length-pack x laws m bytes p), tt)

  write_packet_fit :
      (s : q.State) (udp_stream : Bool) (m : UdpMessage x.Destination) (n : ℕ)
      → header_size x m + length m.data_bytes ≤ n
      → All (λ b. length b ≤ n) (write_packet x q s udp_stream m).1
  unfolding write_packet
  write_packet_fit s udp_stream m n h = write_packed_fit s udp_stream m (pack x m) n refl h

  next_packet_fit :
      (n : ℕ) (w : Written x q) (rest : q.State → Written x q)
      → All (λ b. length b ≤ n) w.1
      → ((s : q.State) → All (λ b. length b ≤ n) (rest s).1)
      → All (λ b. length b ≤ n) (next_packet x q w rest).1
  next_packet_fit n (s, out, some e) rest a more = a
  next_packet_fit n (s, out, none) rest a more = All-append n out (rest s).1 a (more s)

  write_packets_fit :
      (s : q.State) (udp_stream : Bool) (ms : List (UdpMessage x.Destination)) (n : ℕ)
      → All (λ f. header_size x f + length f.data_bytes ≤ n) ms
      → All (λ b. length b ≤ n) (write_packets x q s udp_stream ms).1
  unfolding write_packets
  write_packets_fit s udp_stream [] n a = tt
  write_packets_fit s udp_stream (m ∷ ms) n (h, a) =
      next_packet_fit n (write_packet x q s udp_stream m) (λ s'. write_packets x q s' udp_stream ms)
        (write_packet_fit s udp_stream m n h) (λ s'. write_packets_fit s' udp_stream ms n a)

  -- On a session over datagrams, the first attempt hands QUIC no datagram that is longer than the
  -- packet size, when that leaves room for a byte of data behind the header.
  pub first_attempt_fit :
      (s : q.State) (c : Sender) (m : UdpMessage x.Destination)
      → c.udp_stream ≡ false
      → header_size x m < c.udp_mtu
      → All (λ b. length b ≤ c.udp_mtu) (first_attempt x q s c m).1
  unfolding first_attempt
  first_attempt_fit s c m datagrams roomy =
      elim (Bool-cases (ltb c.udp_mtu (header_size x m + length m.data_bytes))) [
        | inl long ↦
            rw (datagrams, long)
              (write_packets_fit s false (frag_udp_message x m c.udp_mtu) c.udp_mtu
                (frag_udp_message_fit x laws m c.udp_mtu roomy))
        | inr short ↦ rw (datagrams, short) (write_packet_fit s false m c.udp_mtu (ground arith))
      ]

  retry_fit :
      (c : Sender) (m : UdpMessage x.Destination) (w : Written x q) (n : ℕ)
      → All (λ b. length b ≤ n) w.1
      → header_size x m < (retry x q c m w).0.udp_mtu
      → (retry x q c m w).0.udp_mtu ≤ n
      → All (λ b. length b ≤ n) (retry x q c m w).1.1
  retry_fit c m (s, out, none) n a roomy bound = a
  retry_fit c m (s, out, some conn_closed) n a roomy bound = a
  retry_fit c m (s, out, some invalid_destination) n a roomy bound = a
  retry_fit c m (s, out, some quic_failed) n a roomy bound = a
  retry_fit c m (s, out, some (packing e)) n a roomy bound = a
  retry_fit c m (s, out, some (datagram_too_large max)) n a roomy bound =
      let fragments = frag_udp_message x m (max - 3) in
      All-append n out (write_packets x q s c.udp_stream fragments).1 a (
        All-weaken (max - 3) n (write_packets x q s c.udp_stream fragments).1 bound (
          write_packets_fit s c.udp_stream fragments (max - 3)
            (frag_udp_message_fit x laws m (max - 3) roomy)))

  -- On a session over datagrams no datagram of a message is longer than the larger of the two packet
  -- sizes, the one before the write and the one that QUIC's refusal of a datagram leaves, as long as
  -- each has room for a byte of data behind the header.
  pub write_packet_or_fragments_fit :
      (s : q.State) (c : Sender) (m : UdpMessage x.Destination) (n : ℕ)
      → c.udp_stream ≡ false
      → header_size x m < c.udp_mtu
      → c.udp_mtu ≤ n
      → header_size x m < (write_packet_or_fragments x q s c m).0.udp_mtu
      → (write_packet_or_fragments x q s c m).0.udp_mtu ≤ n
      → All (λ b. length b ≤ n) (write_packet_or_fragments x q s c m).1.1
  unfolding write_packet_or_fragments
  write_packet_or_fragments_fit s c m n datagrams roomy bound roomy' bound' =
      retry_fit c m (first_attempt x q s c m) n
        (All-weaken c.udp_mtu n (first_attempt x q s c m).1 bound
          (first_attempt_fit s c m datagrams roomy))
        roomy' bound'
