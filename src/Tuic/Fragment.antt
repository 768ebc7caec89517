-- ===== src/Tuic/Fragment.antt =====
-- core/transport/tuic/packet.go: `fragUDPMessage`, which splits a message into datagrams.
pub mod Laws
use ppanel_node.Base.{
  ℕ, zero, suc, ◌+◌, ◌-◌, ◌%◌, List, [], ◌∷◌, if◌then◌else◌, ltb, leb, length, take, drop,
}
use mathlib.Core.Bool.{◌||◌}
use ppanel_node.Tuic.Net.{XNet}
use ppanel_node.Tuic.Message.{UdpMessage, header_size}

-- The loop over `remaining`: pieces of `udpMTU` bytes, the last one shorter. Each round takes a byte
-- at least, so the length of the data is fuel enough; `remaining` is the length of `origin`.
unfoldable pub pieces : ℕ → ℕ → List ℕ → List (List ℕ)
pieces zero mtu origin = []
pieces (suc fuel) mtu [] = []
pieces (suc fuel) mtu (b ∷ bs) =
    let rest = pieces fuel mtu (drop mtu (b ∷ bs)) in
    if ltb mtu (length (b ∷ bs)) then take mtu (b ∷ bs) ∷ rest else (b ∷ bs) ∷ []

module _ (x : XNet) where
  -- The second loop: `uint8` of the index and of the number of pieces, and no destination but on
  -- the first.
  unfoldable pub number :
      UdpMessage x.Destination → ℕ → ℕ → List (List ℕ) → List (UdpMessage x.Destination)
  number m total index [] = []
  number m total index (piece ∷ more) =
      record m {
        fragment_total = total % 256;
        fragment_id = index % 256;
        destination = if ltb 0 index then x.zero_destination else m.destination;
        data_bytes = piece;
      }
      ∷ number m total (suc index) more

  -- `udpMTU` may be negative in the source; on ℕ the difference is 0 then, which takes the same
  -- branch.
  unfoldable pub frag_udp_message : UdpMessage x.Destination → ℕ → List (UdpMessage x.Destination)
  unfolding number
  frag_udp_message m max_packet_size =
      let mtu = max_packet_size - header_size x m in
      let parts = pieces (length m.data_bytes) mtu m.data_bytes in
      if leb mtu 0 || leb (length m.data_bytes) mtu then m ∷ [] else number m (length parts) 0 parts
