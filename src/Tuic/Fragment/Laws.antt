-- ===== src/Tuic/Fragment/Laws.antt =====
-- The fragments of a message hold its data in order, each in one datagram.
use ppanel_node.Base.{
  ℕ, zero, suc, ◌+◌, ◌-◌, ◌*◌, ◌≤◌, ◌<◌, ◌≡◌, refl, ap, List, [], ◌∷◌, ◌++◌, arith, length,
  length-take, length-drop, drop, take-append-drop, All, ltb, ltb→lt, false, Bool-cases, inl, inr,
}
use ppanel_node.Tuic.Net.{XNet, XNetLaws, Family}
use ppanel_node.Tuic.Protocol.{destination_len, address_len}
use ppanel_node.Tuic.Message.{UdpMessage, header_size}
use ppanel_node.Tuic.Defrag.{concat_data}
use ppanel_node.Tuic.Fragment.{pieces, number, frag_udp_message}

abbrev pub flat : List (List ℕ) → List ℕ
flat [] = []
flat (p ∷ ps) = p ++ flat ps

pub flat-pieces :
    (fuel mtu : ℕ) (origin : List ℕ)
    → 0 < mtu
    → length origin ≤ fuel
    → flat (pieces fuel mtu origin) ≡ origin
unfolding pieces
flat-pieces zero mtu [] pos h = refl
flat-pieces zero mtu (b ∷ bs) pos h = absurd (omega arith)
flat-pieces (suc fuel) mtu [] pos h = refl
flat-pieces (suc fuel) mtu (b ∷ bs) pos h = ground (
  arith,
  flat-pieces fuel mtu (drop mtu (b ∷ bs)) pos,
  length-drop mtu (b ∷ bs),
  take-append-drop mtu (b ∷ bs),
  mathlib.Core.List.append-nil (b ∷ bs),
)

pub pieces_fit :
    (fuel mtu : ℕ) (origin : List ℕ)
    → 0 < mtu
    → All (λ p. (0 < length p) × (length p ≤ mtu)) (pieces fuel mtu origin)
unfolding pieces
pieces_fit zero mtu origin pos = tt
pieces_fit (suc fuel) mtu [] pos = tt
pieces_fit (suc fuel) mtu (b ∷ bs) pos =
    ground (arith, pieces_fit fuel mtu (drop mtu (b ∷ bs)) pos, length-take mtu (b ∷ bs))

leb_of_not_ltb : (a b : ℕ) → ltb a b ≡ false → b ≤ a
leb_of_not_ltb a b h = ground arith

-- The number of pieces is the length over `mtu`, rounded up.
pub length-pieces :
    (fuel mtu : ℕ) (origin : List ℕ)
    → 0 < mtu
    → length origin ≤ fuel
    → (length origin ≤ length (pieces fuel mtu origin) * mtu)
      × (length (pieces fuel mtu origin) * mtu < length origin + mtu)
unfolding pieces
length-pieces zero mtu [] pos h = grind arith
length-pieces zero mtu (b ∷ bs) pos h = absurd (omega arith)
length-pieces (suc fuel) mtu [] pos h = grind arith
length-pieces (suc fuel) mtu (b ∷ bs) pos h = elim (Bool-cases (ltb mtu (length (b ∷ bs)))) [
  | inl more ↦
      let rest = length-pieces fuel mtu (drop mtu (b ∷ bs)) pos in
      rw more (grind (arith, rest, length-drop mtu (b ∷ bs), ltb→lt mtu (length (b ∷ bs)) more))
  | inr last ↦ rw last (grind (arith, leb_of_not_ltb mtu (length (b ∷ bs)) last))
]

module _ (x : XNet) where
  concat-number :
      (m : UdpMessage x.Destination) (total index : ℕ) (ps : List (List ℕ))
      → concat_data (number x m total index ps) ≡ flat ps
  unfolding concat_data number
  concat-number m total index [] = refl
  concat-number m total index (p ∷ ps) = ap (λ r. p ++ r) (concat-number m total (suc index) ps)

  pub length-number :
      (m : UdpMessage x.Destination) (total index : ℕ) (ps : List (List ℕ))
      → length (number x m total index ps) ≡ length ps
  unfolding number
  length-number m total index [] = refl
  length-number m total index (p ∷ ps) = ap suc (length-number m total (suc index) ps)

  -- The fragments carry exactly the data of the message, in order, whatever the packet size.
  pub concat-frag_udp_message :
      (m : UdpMessage x.Destination) (size : ℕ)
      → concat_data (frag_udp_message x m size) ≡ m.data_bytes
  unfolding frag_udp_message concat_data
  concat-frag_udp_message m size =
      let mtu = size - header_size x m in
      let parts = pieces (length m.data_bytes) mtu m.data_bytes in
      ground (
        arith,
        mathlib.Core.List.append-nil m.data_bytes,
        concat-number m (length parts) 0 parts,
        flat-pieces (length m.data_bytes) mtu m.data_bytes,
      )

  address_len-pos : (f : Family) (d : x.Destination) → 1 ≤ address_len x f d
  unfolding address_len
  address_len-pos Family.domain d = omega arith
  address_len-pos f d = omega arith

  destination_len-pos : (d : x.Destination) → 1 ≤ destination_len x d
  unfolding destination_len
  destination_len-pos d = ground (arith, address_len-pos (x.family (x.address d)) d)

  module _ (laws : XNetLaws x) (m : UdpMessage x.Destination) where
    zero-len : destination_len x x.zero_destination ≡ 1
    unfolding destination_len
    zero-len = ground (arith, laws.zero_invalid)

    number_fit :
        (size total index : ℕ) (ps : List (List ℕ))
        → 0 < size - header_size x m
        → All (λ p. (0 < length p) × (length p ≤ size - header_size x m)) ps
        → All (λ f. header_size x f + length f.data_bytes ≤ size) (number x m total index ps)
    unfolding number header_size
    number_fit size total index [] pos h = tt
    number_fit size total index (p ∷ ps) pos h = ground (
      arith,
      number_fit size total (suc index) ps pos,
      zero-len,
      destination_len-pos m.destination,
    )

    -- When the packet size leaves room for a byte of data behind the header, every fragment, packed,
    -- fits the packet size.
    pub frag_udp_message_fit :
        (size : ℕ)
        → header_size x m < size
        → All (λ f. header_size x f + length f.data_bytes ≤ size) (frag_udp_message x m size)
    unfolding frag_udp_message
    frag_udp_message_fit size h =
        let mtu = size - header_size x m in
        let parts = pieces (length m.data_bytes) mtu m.data_bytes in
        ground (
          arith,
          number_fit size (length parts) 0 parts,
          pieces_fit (length m.data_bytes) mtu m.data_bytes,
        )
