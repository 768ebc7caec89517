-- ===== src/Tuic/Defrag.antt =====
-- core/transport/tuic/packet.go: `udpDefragger`, which puts fragments together again. Its mutex makes
-- each `feed` one step.
pub mod Slots
pub mod Sound
pub mod Reassembly
use ppanel_node.Base.{
  ℕ, ◌+◌, ◌%◌, Bool, Option, none, some, List, [], ◌∷◌, ◌++◌, if◌then◌else◌, leb, nat_beq, length,
  get_elem?, set, replicate,
}
use ppanel_node.Base.Eq.{nat_eq}
use ppanel_node.Base.Map.{Map, lookup, insert, delete}
use ppanel_node.Tuic.Message.{UdpMessage}

pub record PacketItem (D : Type 0) : Type 0 where
  pub messages : List (Option (UdpMessage D))
  pub count : ℕ

pub record UdpDefragger (D : Type 0) : Type 0 where
  pub packet_map : Map ℕ (PacketItem D)

-- `panic` is a nil pointer dereference; otherwise the new state and the message or nil.
pub data Fed (D : Type 0) : Type 0 where
  panic : Fed D
  fed : UdpDefragger D → Option (UdpMessage D) → Fed D

module _ {D : Type 0} where
  unfoldable pub new_udp_defragger : UdpDefragger D
  new_udp_defragger = record { packet_map = [] }

  unfoldable pub concat_data : List (UdpMessage D) → List ℕ
  concat_data [] = []
  concat_data (m ∷ ms) = m.data_bytes ++ concat_data ms

  -- The messages behind the pointers, unless one of them is nil.
  unfoldable pub collect : List (Option (UdpMessage D)) → Option (List (UdpMessage D))
  collect [] = some []
  collect (none ∷ rest) = none
  collect (some m ∷ rest) = elim (collect rest) [ none ↦ none | some ms ↦ some (m ∷ ms) ]

  -- A copy of the first message with the data of all; nil when there are no data.
  unfoldable pub assemble : List (UdpMessage D) → Option (UdpMessage D)
  unfolding concat_data
  assemble [] = none
  assemble (m ∷ ms) =
      let whole = concat_data (m ∷ ms) in
      if nat_beq (length whole) 0 then none else some (record m { data_bytes = whole })

  unfoldable pub complete : UdpDefragger D → Option (List (UdpMessage D)) → Fed D
  unfolding assemble
  complete d none = panic
  complete d (some ms) = fed d (assemble ms)

  unfoldable pub start_item : UdpDefragger D → UdpMessage D → Fed D
  start_item d m =
      let slots = set (replicate m.fragment_total none) m.fragment_id (some m) in
      let item : PacketItem D = record { messages = slots; count = 1 } in
      fed (record { packet_map = insert m.packet_id item d.packet_map }) none

  unfoldable pub fill_slot : UdpDefragger D → UdpMessage D → PacketItem D → Fed D
  unfolding collect complete
  fill_slot d m item =
      let slots = set item.messages m.fragment_id (some m) in
      let count = (item.count + 1) % 256 in
      let kept = insert m.packet_id (record { messages = slots; count = count }) d.packet_map in
      if nat_beq count (length slots)
      then complete (record { packet_map = delete m.packet_id kept }) (collect slots)
      else fed (record { packet_map = kept }) none

  -- `item.messages[m.fragmentID] != nil`; the index is in range here.
  abbrev pub is_filled : Option (Option (UdpMessage D)) → Bool
  is_filled none = Bool.false
  is_filled (some none) = Bool.false
  is_filled (some (some m)) = Bool.true

  unfoldable pub feed_item : UdpDefragger D → UdpMessage D → Option (PacketItem D) → Fed D
  unfolding start_item fill_slot
  feed_item d m none = start_item d m
  feed_item d m (some item) =
      if nat_beq m.fragment_total (length item.messages)
      then (if is_filled (get_elem? item.messages m.fragment_id)
          then fed d none
          else fill_slot d m item)
      else start_item d m

  unfoldable pub feed : UdpDefragger D → UdpMessage D → Fed D
  unfolding feed_item
  feed d m =
      if leb m.fragment_total 1
      then fed d (some m)
      else if leb m.fragment_total m.fragment_id
      then fed d none
      else feed_item d m (lookup m.packet_id d.packet_map)
