-- ===== src/Tuic/Session/Relay.antt =====
-- core/transport/tuic/service.go: nothing is relayed in a session before its user is authenticated, and
-- everything is relayed for that user.
use mathlib.Core.Option.{some_inj}
use ppanel_node.Base.{
  ℕ, ◌≡◌, ◌≢◌, refl, ap, sym, ◌∙◌, Bool, true, false, Option, none, some, [], if◌then◌else◌, arith,
  All, Bool-cases, Option-cases, inl, inr, leb,
}
use ppanel_node.Base.Eq.{nat_eq}
use ppanel_node.Base.Map.{lookup}
use ppanel_node.Base.Map.Distinct.{All-lookup, insert-All}
use ppanel_node.Tuic.Net.{XNet}
use ppanel_node.Tuic.Message.{UdpMessage}
use ppanel_node.Tuic.Defrag.{Fed, panic, fed, feed}
use ppanel_node.Tuic.Connection.{
  UdpPacketConn, new_udp_packet_conn, mark_started, offer, after_feed, input_packet,
}
use ppanel_node.Tuic.Session.{
  ServerSession, live_conn, stored, relay, open_conn, handle_udp_message,
}

module _ (x : XNet) where
  -- Before the authentication there is no connection; every connection belongs to the user that was
  -- authenticated.
  pub record IsOwned (s : ServerSession x) : Type 0 where
    pub before : s.auth_user ≡ none → (s.conns ≡ []) × (s.handled ≡ []) × (s.streams ≡ [])
    pub owner : All (λ (p : ℕ × UdpPacketConn x.Destination). p.1.user ≡ s.auth_user) s.conns
    pub stream_owner : All (λ user. user ≡ s.auth_user) s.streams

  mark_started_user :
      (c : UdpPacketConn x.Destination) (d : x.Destination) → (mark_started x c d).0.user ≡ c.user
  unfolding mark_started
  mark_started_user c d = ground arith

  offer_user :
      (c : UdpPacketConn x.Destination) (m : UdpMessage x.Destination) → (offer x c m).user ≡ c.user
  unfolding offer
  offer_user c m = ground arith

  after_feed_user :
      (c c' : UdpPacketConn x.Destination) (r : Fed x.Destination)
      → after_feed x c r ≡ some c'
      → c'.user ≡ c.user
  after_feed_user c c' panic e = cc
  after_feed_user c c' (fed d none) e = cc
  after_feed_user c c' (fed d (some m)) e =
      ap (λ (k : UdpPacketConn x.Destination). k.user) (sym (some_inj.0 e))
      ∙ offer_user (record c { defragger = d }) m

  chosen_user :
      (c c' : UdpPacketConn x.Destination) (m : UdpMessage x.Destination) (whole : Bool)
      (r : Fed x.Destination)
      → (if whole then some (offer x c m) else after_feed x c r) ≡ some c'
      → c'.user ≡ c.user
  chosen_user c c' m true r e =
      ap (λ (k : UdpPacketConn x.Destination). k.user) (sym (some_inj.0 e)) ∙ offer_user c m
  chosen_user c c' m false r e = after_feed_user c c' r e

  input_packet_user :
      (c c' : UdpPacketConn x.Destination) (m : UdpMessage x.Destination)
      → input_packet x c m ≡ some c'
      → c'.user ≡ c.user
  unfolding input_packet
  input_packet_user c c' m e = chosen_user c c' m (leb m.fragment_total 1) (feed c.defragger m) e

  stored-IsOwned :
      (s : ServerSession x) (number : ℕ) (should_start : Bool)
      (o : Option (UdpPacketConn x.Destination))
      → IsOwned s
      → s.auth_user ≢ none
      → ((c : UdpPacketConn x.Destination) → o ≡ some c → c.user ≡ s.auth_user)
      → IsOwned (stored x s number should_start o).0
  stored-IsOwned s number should_start none w known user = w
  stored-IsOwned s number should_start (some c) w known user = record {
    before = λ nobody. absurd (known nobody);
    owner =
        insert-All (λ k (c : UdpPacketConn x.Destination). c.user ≡ s.auth_user) number c s.conns
          (user c refl) w.owner;
    stream_owner = w.stream_owner;
  }

  relay-IsOwned :
      (s : ServerSession x) (number : ℕ) (c : UdpPacketConn x.Destination)
      (m : UdpMessage x.Destination)
      → IsOwned s
      → s.auth_user ≢ none
      → c.user ≡ s.auth_user
      → IsOwned (relay x s number c m).0
  unfolding relay
  relay-IsOwned s number c m w known user =
      let marked = mark_started x c m.destination in
      stored-IsOwned s number marked.1 (input_packet x marked.0 m) w known
        (λ c' e. input_packet_user marked.0 c' m e ∙ mark_started_user c m.destination ∙ user)

  live_conn_user :
      (s : ServerSession x) (session_id number : ℕ) (c : UdpPacketConn x.Destination)
      → IsOwned s
      → live_conn x s session_id ≡ some (number, c)
      → c.user ≡ s.auth_user
  unfolding live_conn
  live_conn_user s session_id number c w e =
      elim (Option-cases (lookup session_id s.udp_conn_map)) [
        | inl missing ↦ cc (rw (missing, live_conn) at e)
        | inr (n, found) ↦ elim (Option-cases (lookup n s.conns)) [
          | inl gone ↦ cc (rw (found, gone, live_conn) at e)
          | inr (c', here) ↦
              let owned =
                All-lookup (λ k (c : UdpPacketConn x.Destination). c.user ≡ s.auth_user) s.conns n
                  c' w.owner here in
              elim (Bool-cases c'.is_done) [
                | inl done ↦ cc (rw (found, here, done, live_conn) at e)
                | inr live ↦ ground (arith, rw (found, here, live_conn) at e, live, owned)
              ]
        ]
      ]

  new_conn_user :
      (session_id : ℕ) (udp_stream : Bool) (user : Option ℕ)
      → (new_udp_packet_conn x session_id udp_stream user).user ≡ user
  unfolding new_udp_packet_conn
  new_conn_user session_id udp_stream user = refl

  open_conn-IsOwned :
      (s : ServerSession x) (session_id : ℕ) (udp_stream : Bool)
      → IsOwned s
      → s.auth_user ≢ none
      → IsOwned (open_conn x s session_id udp_stream)
  open_conn-IsOwned s session_id udp_stream w known = record {
    before = λ nobody. absurd (known nobody);
    owner =
        insert-All (λ k (c : UdpPacketConn x.Destination). c.user ≡ s.auth_user) s.next
          (new_udp_packet_conn x session_id udp_stream s.auth_user) s.conns
          (new_conn_user session_id udp_stream s.auth_user) w.owner;
    stream_owner = w.stream_owner;
  }

  pub handle_udp_message-IsOwned :
      (s : ServerSession x) (m : UdpMessage x.Destination) (udp_stream : Bool)
      → IsOwned s
      → s.auth_user ≢ none
      → IsOwned (handle_udp_message x s m udp_stream).0
  unfolding handle_udp_message
  handle_udp_message-IsOwned s m udp_stream w known =
      elim (Option-cases (live_conn x s m.session_id)) [
        | inr ((number, c), live) ↦
            rw (live, handle_udp_message)
              (relay-IsOwned s number c m w known (live_conn_user s m.session_id number c w live))
        | inl missing ↦
            rw (missing, handle_udp_message)
              (relay-IsOwned (open_conn x s m.session_id udp_stream) s.next
                (new_udp_packet_conn x m.session_id udp_stream s.auth_user) m
                (open_conn-IsOwned s m.session_id udp_stream w known) known
                (new_conn_user m.session_id udp_stream s.auth_user))
      ]
