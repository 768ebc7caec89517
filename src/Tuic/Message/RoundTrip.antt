-- ===== src/Tuic/Message/RoundTrip.antt =====
-- Both readers give back the message that `pack` wrote, from a stream and from a datagram.
use ppanel_node.Base.{
  ℕ, ◌+◌, ◌%◌, ◌<◌, ◌≡◌, ◌≢◌, refl, ap, ◌∙◌, List, [], ◌∷◌, ◌++◌, arith, length, length-append,
  drop,
}
use mathlib.Core.List.{append_assoc}
use mathlib.Core.Path.{ap₂}
use ppanel_node.Tuic.Net.{XNet, XNetLaws, Family}
use ppanel_node.Tuic.Reader.{
  Read, Result, ok, err, read_full-append, read_u8-cons, read_u16-write, write_u16,
}
use ppanel_node.Tuic.Protocol.{Network, read_destination, write_destination}
use ppanel_node.Tuic.Protocol.RoundTrip.{
  read-write_destination, read-write_zero, length-write_destination,
}
use ppanel_node.Tuic.Message.{
  UdpMessage, header_size, pack, pack_with, read_header, read_udp_message, decode_udp_message,
}

-- The fields fit their machine types, and the data its 16-bit length field.
pub record IsWellSized {D : Type 0} (m : UdpMessage D) : Type 0 where
  pub session_fits : m.session_id < 65536
  pub packet_fits : m.packet_id < 65536
  pub total_fits : m.fragment_total < 256
  pub id_fits : m.fragment_id < 256
  pub data_fits : length m.data_bytes < 65536

module _ (x : XNet) (laws : XNetLaws x) where
  -- A destination that the wire carries: a UDP destination with an address of a known family and a
  -- 16-bit port, or the zero destination of a later fragment.
  pub data IsCarried : x.Destination → Type 0 where
    of_address :
        (a : x.Address) (port : ℕ)
        → x.family a ≢ Family.other
        → port < 65536
        → IsCarried (x.udp_destination a port)
    of_zero : IsCarried x.zero_destination

  read-carried :
      {d : x.Destination} (bytes rest : List ℕ)
      → IsCarried d
      → write_destination x d ≡ ok bytes
      → read_destination x Network.udp (bytes ++ rest) ≡ ok (d, rest)
  read-carried bytes rest (of_address a port o h) w =
      read-write_destination x laws a port bytes rest o h w
  read-carried bytes rest of_zero w = read-write_zero x laws bytes rest w

  abbrev body : UdpMessage x.Destination → List ℕ → List ℕ
  body m bytes =
      write_u16 m.session_id
      ++ (write_u16 m.packet_id
          ++ (m.fragment_total % 256
              ∷ m.fragment_id % 256
              ∷ (write_u16 (length m.data_bytes) ++ bytes)))

  read_header-body :
      {A : Type 0} (k : ℕ → ℕ → ℕ → ℕ → ℕ → Read A) (m : UdpMessage x.Destination) (bytes : List ℕ)
      → IsWellSized m
      → read_header x k (body m bytes)
        ≡ k m.session_id m.packet_id m.fragment_total m.fragment_id (length m.data_bytes) bytes
  unfolding read_header
  read_header-body k m bytes s = rw (read_u16-write m.session_id _ s.session_fits) (
      rw (read_u16-write m.packet_id _ s.packet_fits) (
        rw read_u8-cons (
          rw read_u8-cons (
            rw (read_u16-write (length m.data_bytes) bytes s.data_fits) (
              ap₂ (λ t i. k m.session_id m.packet_id t i (length m.data_bytes) bytes)
                (omega (arith, s.total_fits)) (omega (arith, s.id_fits)))))))

  body-append :
      (m : UdpMessage x.Destination) (xs ys : List ℕ) → body m xs ++ ys ≡ body m (xs ++ ys)
  unfolding write_u16
  body-append m xs ys = refl

  body-pack :
      (m : UdpMessage x.Destination) (bytes : List ℕ)
      → pack x m ≡ ok bytes
      → (destination : List ℕ) × (write_destination x m.destination ≡ ok destination)
        × (bytes ≡ 5 ∷ 2 ∷ body m (destination ++ m.data_bytes))
  unfolding pack
  body-pack m bytes e = go (write_destination x m.destination) refl e
    where
      go :
          (r : Result (List ℕ))
          → write_destination x m.destination ≡ r
          → pack_with x m r ≡ ok bytes
          → (destination : List ℕ) × (write_destination x m.destination ≡ ok destination)
            × (bytes ≡ 5 ∷ 2 ∷ body m (destination ++ m.data_bytes))
      go (ok d) w p = (d, w, cc)
      go (err c) w p = cc

  -- For a message whose fields fit their widths, with fewer than 65536 bytes of data, and whose
  -- destination is a UDP one of a known address family and a 16-bit port or the zero destination of a
  -- later fragment: what is read off a unidirectional stream is the message that was packed, and what
  -- follows it on the stream is left unread.
  pub read_udp_message-pack :
      (m : UdpMessage x.Destination) (bytes rest : List ℕ)
      → IsWellSized m
      → IsCarried m.destination
      → pack x m ≡ ok bytes
      → read_udp_message x (drop 2 bytes ++ rest) ≡ ok (m, rest)
  unfolding read_udp_message
  read_udp_message-pack m bytes rest s c e =
      let (d, w, shape) = body-pack m bytes e in
      rw shape (
        rw body-append (
          read_header-body _ m _ s
          ∙ rw append_assoc
              (rw (read-carried d (m.data_bytes ++ rest) c w) (rw read_full-append refl))))

  -- For a message whose fields fit their widths, with fewer than 65536 bytes of data, and whose
  -- destination is a UDP one of a known address family and a 16-bit port or the zero destination of a
  -- later fragment: what is decoded from a datagram is the message that was packed.
  pub decode_udp_message-pack :
      (m : UdpMessage x.Destination) (bytes : List ℕ)
      → IsWellSized m
      → IsCarried m.destination
      → pack x m ≡ ok bytes
      → decode_udp_message x (drop 2 bytes) ≡ ok (m, [])
  unfolding decode_udp_message
  decode_udp_message-pack m bytes s c e =
      let (d, w, shape) = body-pack m bytes e in
      rw shape (read_header-body _ m _ s ∙ rw (read-carried d m.data_bytes c w) (ground arith))

  -- A packed message is its header and its data.
  pub length-pack :
      (m : UdpMessage x.Destination) (bytes : List ℕ)
      → pack x m ≡ ok bytes
      → length bytes ≡ header_size x m + length m.data_bytes
  unfolding header_size write_u16
  length-pack m bytes e =
      let (d, w, shape) = body-pack m bytes e in
      omega (
        arith,
        ap length shape,
        length-append d m.data_bytes,
        length-write_destination x laws m.destination d w,
      )
