-- ===== src/Tuic/Connection.antt =====
-- core/transport/tuic/packet.go: `udpPacketConn` on the side that receives. The channel of packets is a
-- list of at most 64; a packet that does not fit is dropped.
use ppanel_node.Base.{
  ℕ, Bool, true, false, Option, none, some, List, [], ◌∷◌, ◌++◌, if◌then◌else◌, ltb, leb, length,
}
use ppanel_node.Tuic.Net.{XNet}
use ppanel_node.Tuic.Message.{UdpMessage}
use ppanel_node.Tuic.Defrag.{UdpDefragger, Fed, panic, fed, feed, new_udp_defragger}

-- `is_done` is the context's end, `is_closed` what `closeOnce` remembers.
pub record UdpPacketConn (D : Type 0) : Type 0 where
  pub session_id : ℕ
  pub udp_stream : Bool
  pub user : Option ℕ
  pub is_done : Bool
  pub is_closed : Bool
  pub started : Bool
  pub inbox : List (UdpMessage D)
  pub defragger : UdpDefragger D

abbrev pub inbox_size : ℕ
inbox_size = 64

module _ (x : XNet) where
  abbrev Conn : Type 0
  Conn = UdpPacketConn x.Destination

  unfoldable pub new_udp_packet_conn : ℕ → Bool → Option ℕ → Conn
  unfolding new_udp_defragger
  new_udp_packet_conn session_id udp_stream user = record {
    session_id = session_id;
    udp_stream = udp_stream;
    user = user;
    is_done = false;
    is_closed = false;
    started = false;
    inbox = [];
    defragger = new_udp_defragger;
  }

  unfoldable pub mark_started : Conn → x.Destination → Conn × Bool
  mark_started c destination =
      if x.is_valid destination
      then (if c.started then (c, false) else (record c { started = true }, true))
      else (c, false)

  -- A send that does not block.
  unfoldable pub offer : Conn → UdpMessage x.Destination → Conn
  offer c m = if ltb (length c.inbox) inbox_size then record c { inbox = c.inbox ++ m ∷ [] } else c

  abbrev pub after_feed : Conn → Fed x.Destination → Option Conn
  after_feed c panic = none
  after_feed c (fed d none) = some (record c { defragger = d })
  after_feed c (fed d (some m)) = some (offer (record c { defragger = d }) m)

  -- `none` is a panic.
  unfoldable pub input_packet : Conn → UdpMessage x.Destination → Option Conn
  unfolding offer feed
  input_packet c m =
      if leb m.fragment_total 1 then some (offer c m) else after_feed c (feed c.defragger m)
