-- ===== src/Tuic/Session.antt =====
-- core/transport/tuic/service.go: `serverSession`. Each handler is one step from the point where
-- `waitAuth` lets it go on; a connection has a number, under which the session keeps it.
pub mod Relay
pub mod Steps
pub mod Run
mod Examples
use ppanel_node.Base.{
  ℕ, ◌+◌, Bool, true, false, not, ◌&&◌, Option, none, some, List, [], ◌∷◌, ◌++◌, if◌then◌else◌, ltb,
  nat_beq, length, take, drop,
}
use ppanel_node.Base.Eq.{nat_eq}
use ppanel_node.Base.Map.{Map, lookup, insert, delete}
use ppanel_node.Tuic.Net.{XNet}
use ppanel_node.Tuic.Reader.{Error, Result, ok, err, read_full, read_u16}
use ppanel_node.Tuic.Protocol.{
  tuic_version, command_authenticate, command_packet, command_dissociate, command_heartbeat,
}
use ppanel_node.Tuic.Message.{UdpMessage, read_udp_message, decode_udp_message}
use ppanel_node.Tuic.Connection.{UdpPacketConn, new_udp_packet_conn, mark_started, input_packet}

pub data SessionError : Type 0 where
  invalid_message unknown_version unknown_command token_mismatch multiple_authentication :
      SessionError
  session_closed : SessionError
  reading : Error → SessionError

module _ (x : XNet) where
  -- `conn_done` and `auth_user` stand for the channels that are closed with them; `handled` lists the
  -- relay connections that were given to the handler, and `streams` the users of the streams that were.
  pub record ServerSession : Type 0 where
    pub conn_done : Bool
    pub auth_user : Option ℕ
    pub udp_conn_map : Map ℕ ℕ
    pub conns : Map ℕ (UdpPacketConn x.Destination)
    pub next : ℕ
    pub handled : List ℕ
    pub streams : List (Option ℕ)

  abbrev pub new_session : ServerSession
  new_session = record {
    conn_done = false;
    auth_user = none;
    udp_conn_map = [];
    conns = [];
    next = 0;
    handled = [];
    streams = [];
  }

  -- How a handler ends: it waits for the authentication, returns an error or nil, or panics.
  pub data Handled : Type 0 where
    waiting returned panicked : Handled
    failed : SessionError → Handled

  abbrev pub Step : Type 0
  Step = ServerSession × Handled

  -- The two channels of the `select`: each with what is done where it is not ready.
  abbrev closed_or : ServerSession → Step → Step
  closed_or s otherwise = if s.conn_done then (s, failed session_closed) else otherwise

  abbrev wait_for : Step → Step → Option ℕ → Step
  wait_for rest otherwise none = otherwise
  wait_for rest otherwise (some user) = rest

  -- `waitAuth`, before the rest of a handler. `auth_first` is the choice of the `select` where both
  -- channels are ready. The end of the QUIC context counts as the session's.
  unfoldable pub wait_auth : Bool → ServerSession → Step → Step
  wait_auth auth_first s rest =
      if auth_first
      then wait_for rest (closed_or s (s, waiting)) s.auth_user
      else closed_or s (wait_for rest (s, waiting) s.auth_user)

  -- `handleStream` and `handlePendingStream`: a bidirectional stream goes to the handler, as one of the
  -- authenticated user.
  unfoldable pub handle_stream : Bool → ServerSession → Step
  unfolding wait_auth
  handle_stream auth_first s =
      wait_auth auth_first s (record s { streams = s.streams ++ s.auth_user ∷ [] }, returned)

  abbrev live_or_none :
      ℕ → Option (UdpPacketConn x.Destination) → Option (ℕ × UdpPacketConn x.Destination)
  live_or_none number none = none
  live_or_none number (some c) = if c.is_done then none else some (number, c)

  -- `udpConnMap[sessionID]`, unless it is nil or done.
  unfoldable pub live_conn : ServerSession → ℕ → Option (ℕ × UdpPacketConn x.Destination)
  live_conn s session_id = elim (lookup session_id s.udp_conn_map) [
    | none ↦ none
    | some number ↦ live_or_none number (lookup number s.conns)
  ]

  abbrev store_conn : ServerSession → ℕ → UdpPacketConn x.Destination → Bool → ServerSession
  store_conn s number c should_start = record s {
    conns = insert number c s.conns;
    handled = if should_start then s.handled ++ number ∷ [] else s.handled;
  }

  -- The packet goes to the connection, and the connection to the handler, if it is the first packet
  -- with a destination.
  abbrev stored : ServerSession → ℕ → Bool → Option (UdpPacketConn x.Destination) → Step
  stored s number should_start none = (s, panicked)
  stored s number should_start (some c) = (store_conn s number c should_start, returned)

  unfoldable pub relay :
      ServerSession → ℕ → UdpPacketConn x.Destination → UdpMessage x.Destination → Step
  unfolding mark_started input_packet
  relay s number c m =
      let (c', should_start) = mark_started x c m.destination in
      stored s number should_start (input_packet x c' m)

  abbrev open_conn : ServerSession → ℕ → Bool → ServerSession
  open_conn s session_id udp_stream = record s {
    udp_conn_map = insert session_id s.next s.udp_conn_map;
    conns = insert s.next (new_udp_packet_conn x session_id udp_stream s.auth_user) s.conns;
    next = s.next + 1;
  }

  unfoldable pub handle_udp_message : ServerSession → UdpMessage x.Destination → Bool → Step
  unfolding live_conn relay new_udp_packet_conn
  handle_udp_message s m udp_stream = elim (live_conn s m.session_id) [
    | some (number, c) ↦ relay s number c m
    | none ↦
        relay (open_conn s m.session_id udp_stream) s.next
          (new_udp_packet_conn x m.session_id udp_stream s.auth_user) m
  ]

  abbrev received : ServerSession → Bool → Result (UdpMessage x.Destination × List ℕ) → Step
  received s udp_stream (err e) = (s, failed (reading e))
  received s udp_stream (ok (m, rest)) = handle_udp_message s m udp_stream

  abbrev cancelled :
      Option (UdpPacketConn x.Destination)
      → ℕ
      → Map ℕ (UdpPacketConn x.Destination)
      → Map ℕ (UdpPacketConn x.Destination)
  cancelled none number conns = conns
  cancelled (some c) number conns = insert number (record c { is_done = true }) conns

  unfoldable pub dissociate : ServerSession → ℕ → ServerSession
  dissociate s session_id = elim (lookup session_id s.udp_conn_map) [
    | none ↦ s
    | some number ↦ record s {
      conns = cancelled (lookup number s.conns) number s.conns;
      udp_conn_map = delete session_id s.udp_conn_map;
    }
  ]

  abbrev dissociated : ServerSession → Result (ℕ × List ℕ) → Step
  dissociated s (err e) = (s, failed (reading e))
  dissociated s (ok (session_id, rest)) = (dissociate s session_id, returned)

  unfoldable pub handle_pending_uni_stream : Bool → ServerSession → ℕ → List ℕ → Step
  unfolding wait_auth handle_udp_message dissociate read_udp_message
  handle_pending_uni_stream auth_first s command bytes = wait_auth auth_first s (
      if nat_beq command command_packet
      then received s true (read_udp_message x bytes)
      else dissociated s (read_u16 bytes))

  -- The select on `authDone`
  abbrev first_authentication : ServerSession → ℕ → Option ℕ → Step
  first_authentication s user none = (record s { auth_user = some user }, returned)
  first_authentication s user (some before) = (s, failed multiple_authentication)

  -- After `Authenticate`, on the uuid and the token of the client; `none` is a refusal.
  abbrev authenticated : ServerSession → Option ℕ → Step
  authenticated s none = (s, failed token_mismatch)
  authenticated s (some user) = first_authentication s user s.auth_user

  module _ (authenticate : List ℕ → List ℕ → Option ℕ) where
    abbrev with_payload : ServerSession → Result (List ℕ × List ℕ) → Step
    with_payload s (err e) = (s, failed (reading e))
    with_payload s (ok (payload, rest)) =
        authenticated s (authenticate (take 16 payload) (drop 16 payload))

    -- A read of two bytes gives two, so the clause for other bytes is never taken.
    abbrev with_header : Bool → ServerSession → Result (List ℕ × List ℕ) → Step
    with_header auth_first s (ok (version ∷ command ∷ [], rest)) =
        if nat_beq version tuic_version
        then (if nat_beq command command_authenticate
            then with_payload s (read_full 48 rest)
            else if nat_beq command command_packet
            then handle_pending_uni_stream auth_first s command rest
            else if nat_beq command command_dissociate
            then handle_pending_uni_stream auth_first s command rest
            else (s, failed unknown_command))
        else (s, failed unknown_version)
    with_header auth_first s (ok other) = (s, failed invalid_message)
    with_header auth_first s (err e) = (s, failed (reading e))

    unfoldable pub handle_uni_stream : Bool → ServerSession → List ℕ → Step
    unfolding handle_pending_uni_stream
    handle_uni_stream auth_first s bytes = with_header auth_first s (read_full 2 bytes)

  unfoldable pub handle_message : Bool → ServerSession → List ℕ → Step
  unfolding wait_auth handle_udp_message decode_udp_message
  handle_message auth_first s (version ∷ command ∷ rest) =
      if nat_beq version tuic_version
      then (if nat_beq command command_packet
          then wait_auth auth_first s (received s false (decode_udp_message x rest))
          else if nat_beq command command_heartbeat
          then (s, returned)
          else (s, failed unknown_command))
      else (s, failed unknown_version)
  handle_message auth_first s short = (s, failed invalid_message)

  -- `closeWithError` of the session, which the loops call on an error.
  abbrev pub close_session : ServerSession → ServerSession
  close_session s = record s { conn_done = true }

  -- `Close` of a connection, once: it is cancelled and the session forgets its id.
  abbrev closed : ServerSession → ℕ → Option (UdpPacketConn x.Destination) → ServerSession
  closed s number none = s
  closed s number (some c) = if c.is_closed then s else record s {
    conns = insert number (record c { is_done = true; is_closed = true }) s.conns;
    udp_conn_map = delete c.session_id s.udp_conn_map;
  }

  unfoldable pub close_conn : ServerSession → ℕ → ServerSession
  close_conn s number = closed s number (lookup number s.conns)
