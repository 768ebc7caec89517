-- ===== src/Tuic/Session/Run.antt =====
-- core/transport/tuic/service.go: a session over any sequence of streams, datagrams and closings.
use ppanel_node.Base.{
  ℕ, Bool, true, false, if◌then◌else◌, ◌≡◌, refl, Option, none, some, List, [], ◌∷◌, All,
}
use ppanel_node.Base.Eq.{nat_eq}
use ppanel_node.Tuic.Net.{XNet}
use ppanel_node.Tuic.Protocol.{}
use ppanel_node.Tuic.Connection.{UdpPacketConn}
use ppanel_node.Tuic.Session.{
  ServerSession, new_session, waiting, returned, panicked, failed, Step, handle_uni_stream,
  handle_message, handle_stream, close_session, close_conn,
}
use ppanel_node.Tuic.Session.Relay.{IsOwned}
use ppanel_node.Tuic.Session.Steps.{
  handle_message-IsOwned, handle_uni_stream-IsOwned, close_conn-IsOwned, handle_stream-IsOwned,
}

-- What happens to a session: a unidirectional stream or a datagram arrives, with all its bytes, or a
-- bidirectional stream does; the client's time to authenticate runs out; the handler closes a
-- connection. The Booleans are the choices of the `select` of `waitAuth` and of `handleAuthTimeout`
-- where several channels are ready.
pub data SessionEvent : Type 0 where
  uni_stream datagram : Bool → List ℕ → SessionEvent
  bi_stream : Bool → SessionEvent
  auth_timeout : Bool → SessionEvent
  conn_closed : ℕ → SessionEvent

module _ (x : XNet) (authenticate : List ℕ → List ℕ → Option ℕ) where
  -- The loops of unidirectional streams and datagrams close the session on an error; that of
  -- bidirectional streams closes the stream only.
  abbrev settled : Step x → ServerSession x
  settled (s, failed e) = close_session x s
  settled (s, h) = s

  abbrev timed_out : Bool → ServerSession x → Option ℕ → ServerSession x
  timed_out timer_first s none = close_session x s
  timed_out timer_first s (some user) = if timer_first then close_session x s else s

  unfoldable pub session_step : SessionEvent → ServerSession x → ServerSession x
  unfolding handle_uni_stream handle_message handle_stream close_conn
  session_step (uni_stream auth_first bytes) s =
      settled (handle_uni_stream x authenticate auth_first s bytes)
  session_step (datagram auth_first bytes) s = settled (handle_message x auth_first s bytes)
  session_step (bi_stream auth_first) s = (handle_stream x auth_first s).0
  session_step (auth_timeout timer_first) s = timed_out timer_first s s.auth_user
  session_step (conn_closed number) s = close_conn x s number

  unfoldable pub session_run : List SessionEvent → ServerSession x → ServerSession x
  unfolding session_step
  session_run [] s = s
  session_run (e ∷ es) s = session_run es (session_step e s)

  closing-IsOwned : (s : ServerSession x) → IsOwned x s → IsOwned x (close_session x s)
  closing-IsOwned s w = record { before = w.before; owner = w.owner; stream_owner = w.stream_owner }

  settled-IsOwned : (r : Step x) → IsOwned x r.0 → IsOwned x (settled r)
  settled-IsOwned (s, failed e) w = closing-IsOwned s w
  settled-IsOwned (s, waiting) w = w
  settled-IsOwned (s, returned) w = w
  settled-IsOwned (s, panicked) w = w

  timed_out-IsOwned :
      (timer_first : Bool) (s : ServerSession x) (o : Option ℕ)
      → IsOwned x s
      → IsOwned x (timed_out timer_first s o)
  timed_out-IsOwned timer_first s none w = closing-IsOwned s w
  timed_out-IsOwned true s (some user) w = closing-IsOwned s w
  timed_out-IsOwned false s (some user) w = w

  session_step-IsOwned :
      (e : SessionEvent) (s : ServerSession x) → IsOwned x s → IsOwned x (session_step e s)
  unfolding session_step
  session_step-IsOwned (uni_stream auth_first bytes) s w =
      settled-IsOwned (handle_uni_stream x authenticate auth_first s bytes)
        (handle_uni_stream-IsOwned x authenticate auth_first s bytes w)
  session_step-IsOwned (datagram auth_first bytes) s w =
      settled-IsOwned (handle_message x auth_first s bytes)
        (handle_message-IsOwned x auth_first s bytes w)
  session_step-IsOwned (bi_stream auth_first) s w = handle_stream-IsOwned x auth_first s w
  session_step-IsOwned (auth_timeout timer_first) s w =
      timed_out-IsOwned timer_first s s.auth_user w
  session_step-IsOwned (conn_closed number) s w = close_conn-IsOwned x s number w

  session_run-IsOwned :
      (es : List SessionEvent) (s : ServerSession x) → IsOwned x s → IsOwned x (session_run es s)
  unfolding session_run
  session_run-IsOwned [] s w = w
  session_run-IsOwned (e ∷ es) s w =
      session_run-IsOwned es (session_step e s) (session_step-IsOwned e s w)

  -- Over every sequence of unidirectional and bidirectional streams, datagrams, the timeout and
  -- closings, from a new session: as long as nobody is authenticated there is no relay connection, and
  -- the handler was given neither a connection nor a stream; and every connection, and every stream
  -- that the handler was given, is that of the user who was authenticated.
  pub session_run_authenticated :
      (es : List SessionEvent)
      → ((session_run es (new_session x)).auth_user ≡ none
          → ((session_run es (new_session x)).conns ≡ [])
            × ((session_run es (new_session x)).handled ≡ [])
            × ((session_run es (new_session x)).streams ≡ []))
        × All
            (λ (p : ℕ × UdpPacketConn x.Destination).
              p.1.user ≡ (session_run es (new_session x)).auth_user)
            (session_run es (new_session x)).conns
        × All
            (λ user. user ≡ (session_run es (new_session x)).auth_user)
            (session_run es (new_session x)).streams
  session_run_authenticated es =
      let w =
        session_run-IsOwned es (new_session x)
          (record { before = λ nobody. (refl, refl, refl); owner = tt; stream_owner = tt }) in
      (w.before, w.owner, w.stream_owner)
