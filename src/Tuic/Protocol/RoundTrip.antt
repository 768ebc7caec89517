-- ===== src/Tuic/Protocol/RoundTrip.antt =====
-- `readDestination` reads back what `writeDestination` wrote, and `destinationLen` measures it.
use ppanel_node.Base.{ℕ, ◌<◌, ◌≡◌, ◌≢◌, refl, ap, List, [], ◌∷◌, ◌++◌, arith, length, length-append}
use mathlib.Core.List.{append_assoc}
use mathlib.Core.Path.{subst, ◌∙◌}
use ppanel_node.Tuic.Net.{XNet, XNetLaws, Family}
use ppanel_node.Tuic.Reader.{
  ok, read_full, read_full-append, read_u8, read_u8-cons, read_u16-write, write_u16,
}
use ppanel_node.Tuic.Protocol.{
  Network, read_destination, read_domain, read_ip, destination_from_address, write_destination,
  write_address, destination_len, address_len,
}

ok_injective {ℓ} : {A : Type ℓ} {a b : A} → ok a ≡ ok b → a ≡ b
ok_injective h = cc

module _ (x : XNet) (laws : XNetLaws x) where
  read_domain-append :
      (name rest : List ℕ) (port : ℕ)
      → port < 65536
      → read_domain x Network.udp (length name ∷ ((name ++ write_u16 port) ++ rest))
        ≡ ok (x.udp_destination (x.domain_address name) port, rest)
  unfolding read_domain destination_from_address
  read_domain-append name rest port h =
      simp (read_u8-cons, append_assoc, read_full-append, read_u16-write port rest h)

  read_ip-append :
      (ip rest : List ℕ) (size port : ℕ)
      → length ip ≡ size
      → port < 65536
      → read_ip x Network.udp size ((ip ++ write_u16 port) ++ rest)
        ≡ ok (x.udp_destination (x.ip_address ip) port, rest)
  unfolding read_ip destination_from_address
  read_ip-append ip rest size port e h =
      rw (← e) (simp (append_assoc, read_full-append, read_u16-write port rest h))

  read_destination-domain :
      (bs : List ℕ) → read_destination x Network.udp (0 ∷ bs) ≡ read_domain x Network.udp bs
  unfolding read_destination read_u8 read_full
  read_destination-domain bs = ground arith

  read_destination-ipv4 :
      (bs : List ℕ) → read_destination x Network.udp (1 ∷ bs) ≡ read_ip x Network.udp 4 bs
  unfolding read_destination read_u8 read_full
  read_destination-ipv4 bs = ground arith

  read_destination-ipv6 :
      (bs : List ℕ) → read_destination x Network.udp (2 ∷ bs) ≡ read_ip x Network.udp 16 bs
  unfolding read_destination read_u8 read_full
  read_destination-ipv6 bs = ground arith

  read_destination-none :
      (bs : List ℕ) → read_destination x Network.udp (255 ∷ bs) ≡ ok (x.zero_destination, bs)
  unfolding read_destination read_u8 read_full
  read_destination-none bs = ground arith

  Reads : x.Destination → List ℕ → Type 0
  Reads d bytes = (rest : List ℕ) → read_destination x Network.udp (bytes ++ rest) ≡ ok (d, rest)

  domain-Reads :
      (a : x.Address) (port : ℕ)
      → x.family a ≡ Family.domain
      → port < 65536
      → Reads
          (x.udp_destination a port)
          (0 ∷ length (x.domain_of a) ∷ (x.domain_of a ++ write_u16 port))
  unfolding Reads
  domain-Reads a port e h rest =
      read_destination-domain _
      ∙ read_domain-append (x.domain_of a) rest port h
      ∙ ap (λ b. ok (x.udp_destination b port, rest)) (laws.domain_raw a e)

  ipv4-Reads :
      (a : x.Address) (port : ℕ)
      → x.family a ≡ Family.ipv4
      → port < 65536
      → Reads (x.udp_destination a port) (1 ∷ (x.to4 a ++ write_u16 port))
  unfolding Reads
  ipv4-Reads a port e h rest =
      read_destination-ipv4 _
      ∙ read_ip-append (x.to4 a) rest 4 port (laws.ipv4_length a e) h
      ∙ ap (λ b. ok (x.udp_destination b port, rest)) (laws.ipv4_raw a e)

  ipv6-Reads :
      (a : x.Address) (port : ℕ)
      → x.family a ≡ Family.ipv6
      → port < 65536
      → Reads (x.udp_destination a port) (2 ∷ (x.to16 a ++ write_u16 port))
  unfolding Reads
  ipv6-Reads a port e h rest =
      read_destination-ipv6 _
      ∙ read_ip-append (x.to16 a) rest 16 port (laws.ipv6_length a e) h
      ∙ ap (λ b. ok (x.udp_destination b port, rest)) (laws.ipv6_raw a e)

  -- What `writeDestination` writes for a destination whose address is of a known family.
  write_destination-Reads :
      (f : Family) (a : x.Address) (port : ℕ) (bytes : List ℕ)
      → x.family a ≡ f
      → f ≢ Family.other
      → port < 65536
      → write_address x f (x.udp_destination a port) ≡ ok bytes
      → Reads (x.udp_destination a port) bytes
  unfolding write_address
  write_destination-Reads Family.domain a port bytes e o h w =
      subst (Reads (x.udp_destination a port))
        (ok_injective (ground (arith, laws.udp_address a port, laws.udp_port a port)))
        (domain-Reads a port e h)
  write_destination-Reads Family.ipv4 a port bytes e o h w =
      subst (Reads (x.udp_destination a port))
        (ok_injective (ground (arith, laws.udp_address a port, laws.udp_port a port)))
        (ipv4-Reads a port e h)
  write_destination-Reads Family.ipv6 a port bytes e o h w =
      subst (Reads (x.udp_destination a port))
        (ok_injective (ground (arith, laws.udp_address a port, laws.udp_port a port)))
        (ipv6-Reads a port e h)
  write_destination-Reads Family.other a port bytes e o h w = absurd (o refl)

  -- A UDP destination with an address of a known family and a 16-bit port, once written, is read
  -- back whole, and the bytes behind it are left unread.
  pub read-write_destination :
      (a : x.Address) (port : ℕ) (bytes rest : List ℕ)
      → x.family a ≢ Family.other
      → port < 65536
      → write_destination x (x.udp_destination a port) ≡ ok bytes
      → read_destination x Network.udp (bytes ++ rest) ≡ ok (x.udp_destination a port, rest)
  unfolding Reads write_destination
  read-write_destination a port bytes rest o h w =
      write_destination-Reads (x.family a) a port bytes refl o h
        (ground (arith, laws.udp_valid a port, laws.udp_address a port)) rest

  -- The zero destination, which a later fragment carries, reads back as itself.
  pub read-write_zero :
      (bytes rest : List ℕ)
      → write_destination x x.zero_destination ≡ ok bytes
      → read_destination x Network.udp (bytes ++ rest) ≡ ok (x.zero_destination, rest)
  unfolding write_destination
  read-write_zero bytes rest w =
      subst (λ b. read_destination x Network.udp (b ++ rest) ≡ ok (x.zero_destination, rest))
        {x = 255 ∷ []} (ok_injective (ground (arith, laws.zero_invalid)))
        (read_destination-none rest)

  length-write_address :
      (f : Family) (d : x.Destination) (bytes : List ℕ)
      → x.family (x.address d) ≡ f
      → write_address x f d ≡ ok bytes
      → length bytes ≡ address_len x f d
  unfolding write_address address_len write_u16
  length-write_address Family.domain d bytes e w =
      ground (arith, length-append (x.domain_of (x.address d)) (write_u16 (x.port d)))
  length-write_address Family.ipv4 d bytes e w = ground (
    arith,
    length-append (x.to4 (x.address d)) (write_u16 (x.port d)),
    laws.ipv4_length (x.address d),
  )
  length-write_address Family.ipv6 d bytes e w = ground (
    arith,
    length-append (x.to16 (x.address d)) (write_u16 (x.port d)),
    laws.ipv6_length (x.address d),
  )
  length-write_address Family.other d bytes e w = ground arith

  -- `destinationLen` is the number of bytes that `writeDestination` writes.
  pub length-write_destination :
      (d : x.Destination) (bytes : List ℕ)
      → write_destination x d ≡ ok bytes
      → length bytes ≡ destination_len x d
  unfolding write_destination destination_len
  length-write_destination d bytes w =
      ground (arith, length-write_address (x.family (x.address d)) d bytes refl)
