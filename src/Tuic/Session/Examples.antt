-- ===== src/Tuic/Session/Examples.antt =====
-- The session at concrete inputs: a client that authenticates and sends a packet, and a connection that
-- is closed late.
use ppanel_node.Base.{ℕ, ◌≡◌, refl, Option, none, some, List, [], ◌∷◌, true, false, All, replicate}
use ppanel_node.Base.Eq.{nat_eq}
use ppanel_node.Base.Map.{lookup, insert, delete}
use ppanel_node.Tuic.Defrag.{new_udp_defragger}
use ppanel_node.Tuic.Connection.{
  UdpPacketConn, new_udp_packet_conn, mark_started, input_packet, offer,
}
use ppanel_node.Tuic.Reader.{read_full}
use ppanel_node.Tuic.Session.{
  ServerSession, new_session, handle_udp_message, live_conn, relay, dissociate, close_conn,
}
use ppanel_node.Tuic.Session.Run.{
  SessionEvent, uni_stream, datagram, bi_stream, session_run, session_run_authenticated,
}
use ppanel_node.Tuic.Examples.{TestDestination, test_net, message, packed}

abbrev accept_all : List ℕ → List ℕ → Option ℕ
accept_all uuid token = some 7

abbrev events : List SessionEvent
events = uni_stream false (5 ∷ 0 ∷ replicate 48 1) ∷ datagram true packed ∷ bi_stream false ∷ []

session_run_authenticated_example :
    ((session_run test_net accept_all events (new_session test_net)).auth_user ≡ none
      → ((session_run test_net accept_all events (new_session test_net)).conns ≡ [])
        × ((session_run test_net accept_all events (new_session test_net)).handled ≡ [])
        × ((session_run test_net accept_all events (new_session test_net)).streams ≡ []))
    × All
        (λ (p : ℕ × UdpPacketConn TestDestination).
          p.1.user ≡ (session_run test_net accept_all events (new_session test_net)).auth_user)
        (session_run test_net accept_all events (new_session test_net)).conns
    × All
        (λ user. user ≡ (session_run test_net accept_all events (new_session test_net)).auth_user)
        (session_run test_net accept_all events (new_session test_net)).streams
session_run_authenticated_example = session_run_authenticated test_net accept_all events

-- The stream before the authentication waits; the one after it is the user's.
streams_of_user :
    (session_run test_net accept_all
      (bi_stream false ∷ uni_stream false (5 ∷ 0 ∷ replicate 48 1) ∷ bi_stream true ∷ [])
      (new_session test_net)).streams
    ≡ some 7 ∷ []
unfolding session_run read_full
streams_of_user = refl

-- The client ends its relay session and opens it again; then the handler closes the first connection.
abbrev reopened : ServerSession test_net
reopened =
    let first =
      (handle_udp_message test_net (record (new_session test_net) { auth_user = some 7 }) message
        false).0 in
    (handle_udp_message test_net (dissociate test_net first 258) message false).0

reopened_live : lookup 258 reopened.udp_conn_map ≡ some 1
unfolding handle_udp_message live_conn relay dissociate new_udp_packet_conn mark_started
    input_packet offer lookup insert delete new_udp_defragger
reopened_live = refl

-- The second connection is forgotten with the first, although it is alive.
late_close : lookup 258 (close_conn test_net reopened 0).udp_conn_map ≡ none
unfolding handle_udp_message live_conn relay dissociate new_udp_packet_conn mark_started
    input_packet offer lookup insert delete new_udp_defragger close_conn
late_close = refl
