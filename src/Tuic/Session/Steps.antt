-- ===== src/Tuic/Session/Steps.antt =====
-- core/transport/tuic/service.go: what each handler of a session keeps.
use ppanel_node.Base.{
  ℕ, ◌≡◌, ◌≢◌, refl, Bool, true, false, Option, none, some, List, [], ◌∷◌, ◌++◌, if◌then◌else◌, All,
  Option-cases, inl, inr, nat_beq, take, drop,
}
use ppanel_node.Base.Eq.{nat_eq}
use ppanel_node.Base.Map.{Map, lookup, insert, delete, lookup-empty}
use ppanel_node.Base.Map.Distinct.{All-lookup, insert-All}
use ppanel_node.Tuic.Net.{XNet}
use ppanel_node.Tuic.Reader.{Result, ok, err, read_full, read_u16}
use ppanel_node.Tuic.Message.{UdpMessage, read_udp_message, decode_udp_message}
use ppanel_node.Tuic.Protocol.{
  tuic_version, command_authenticate, command_packet, command_dissociate, command_heartbeat,
}
use ppanel_node.Tuic.Connection.{UdpPacketConn}
use ppanel_node.Tuic.Session.{
  ServerSession, returned, failed, Step, wait_auth, received, dissociate, dissociated, cancelled,
  handle_pending_uni_stream, authenticated, first_authentication, wait_for, closed_or, waiting,
  session_closed, handle_stream, unknown_command, with_payload, with_header, handle_uni_stream,
  handle_message, close_conn, closed,
}
use ppanel_node.Tuic.Session.Relay.{IsOwned, handle_udp_message-IsOwned}

module _ (x : XNet) where
  abbrev Owner : ServerSession x → ℕ → UdpPacketConn x.Destination → Type 0
  Owner s k c = c.user ≡ s.auth_user

  if-IsOwned :
      (b : Bool) (p q : Step x) → IsOwned x p.0 → IsOwned x q.0 → IsOwned x (if b then p else q).0
  if-IsOwned true p q wp wq = wp
  if-IsOwned false p q wp wq = wq

  wait_for-IsOwned :
      (s : ServerSession x) (rest otherwise : Step x) (o : Option ℕ)
      → s.auth_user ≡ o
      → IsOwned x otherwise.0
      → (s.auth_user ≢ none → IsOwned x rest.0)
      → IsOwned x (wait_for x rest otherwise o).0
  wait_for-IsOwned s rest otherwise none e w go = w
  wait_for-IsOwned s rest otherwise (some user) e w go = go (λ n. cc (n, e))

  closed_or-IsOwned :
      (s : ServerSession x) (otherwise : Step x)
      → IsOwned x s
      → IsOwned x otherwise.0
      → IsOwned x (closed_or x s otherwise).0
  closed_or-IsOwned s otherwise w o =
      if-IsOwned s.conn_done (s, failed session_closed) otherwise w o

  wait_auth-IsOwned :
      (auth_first : Bool) (s : ServerSession x) (rest : Step x)
      → IsOwned x s
      → (s.auth_user ≢ none → IsOwned x rest.0)
      → IsOwned x (wait_auth x auth_first s rest).0
  unfolding wait_auth
  wait_auth-IsOwned true s rest w go =
      wait_for-IsOwned s rest (closed_or x s (s, waiting)) s.auth_user refl
        (closed_or-IsOwned s (s, waiting) w w) go
  wait_auth-IsOwned false s rest w go =
      closed_or-IsOwned s (wait_for x rest (s, waiting) s.auth_user) w
        (wait_for-IsOwned s rest (s, waiting) s.auth_user refl w go)

  appended :
      (users : List (Option ℕ)) (user : Option ℕ)
      → All (λ u. u ≡ user) users
      → All (λ u. u ≡ user) (users ++ user ∷ [])
  appended [] user all = (refl, tt)
  appended (u ∷ users) user (same, all) = (same, appended users user all)

  pub handle_stream-IsOwned :
      (auth_first : Bool) (s : ServerSession x)
      → IsOwned x s
      → IsOwned x (handle_stream x auth_first s).0
  unfolding handle_stream
  handle_stream-IsOwned auth_first s w = wait_auth-IsOwned auth_first s _ w (λ known. record {
    before = λ nobody. absurd (known nobody);
    owner = w.owner;
    stream_owner = appended s.streams s.auth_user w.stream_owner;
  })

  received-IsOwned :
      (s : ServerSession x) (udp_stream : Bool) (r : Result (UdpMessage x.Destination × List ℕ))
      → IsOwned x s
      → s.auth_user ≢ none
      → IsOwned x (received x s udp_stream r).0
  received-IsOwned s udp_stream (err e) w known = w
  received-IsOwned s udp_stream (ok (m, rest)) w known =
      handle_udp_message-IsOwned x s m udp_stream w known

  cancelled_owner :
      (s : ServerSession x) (number : ℕ) (o : Option (UdpPacketConn x.Destination))
      → IsOwned x s
      → lookup number s.conns ≡ o
      → All
          (λ (p : ℕ × UdpPacketConn x.Destination). p.1.user ≡ s.auth_user)
          (cancelled x o number s.conns)
  cancelled_owner s number none w e = w.owner
  cancelled_owner s number (some c) w e =
      insert-All (Owner s) number (record c { is_done = true }) s.conns
        (All-lookup (Owner s) s.conns number c w.owner e) w.owner

  dissociate-IsOwned :
      (s : ServerSession x) (session_id : ℕ)
      → IsOwned x s
      → s.auth_user ≢ none
      → IsOwned x (dissociate x s session_id)
  unfolding dissociate
  dissociate-IsOwned s session_id w known = elim (Option-cases (lookup session_id s.udp_conn_map)) [
    | inl missing ↦ rw (missing, dissociate) w
    | inr (number, found) ↦
        rw (found, dissociate)
          (record {
            before = λ nobody. absurd (known nobody);
            owner = cancelled_owner s number (lookup number s.conns) w refl;
            stream_owner = w.stream_owner;
          })
  ]

  dissociated-IsOwned :
      (s : ServerSession x) (r : Result (ℕ × List ℕ))
      → IsOwned x s
      → s.auth_user ≢ none
      → IsOwned x (dissociated x s r).0
  dissociated-IsOwned s (err e) w known = w
  dissociated-IsOwned s (ok (session_id, rest)) w known = dissociate-IsOwned s session_id w known

  handle_pending_uni_stream-IsOwned :
      (auth_first : Bool) (s : ServerSession x) (command : ℕ) (bytes : List ℕ)
      → IsOwned x s
      → IsOwned x (handle_pending_uni_stream x auth_first s command bytes).0
  unfolding handle_pending_uni_stream
  handle_pending_uni_stream-IsOwned auth_first s command bytes w =
      wait_auth-IsOwned auth_first s _ w (λ known.
        if-IsOwned (nat_beq command command_packet) (received x s true (read_udp_message x bytes))
          (dissociated x s (read_u16 bytes))
          (received-IsOwned s true (read_udp_message x bytes) w known)
          (dissociated-IsOwned s (read_u16 bytes) w known))

  nothing_owned :
      (user : ℕ) (conns : Map ℕ (UdpPacketConn x.Destination))
      → conns ≡ []
      → All (λ (p : ℕ × UdpPacketConn x.Destination). p.1.user ≡ some user) conns
  nothing_owned user [] e = tt
  nothing_owned user (p ∷ conns) e = cc

  no_streams : (user : ℕ) (users : List (Option ℕ)) → users ≡ [] → All (λ u. u ≡ some user) users
  no_streams user [] e = tt
  no_streams user (u ∷ users) e = cc

  first_authentication-IsOwned :
      (s : ServerSession x) (user : ℕ) (o : Option ℕ)
      → s.auth_user ≡ o
      → IsOwned x s
      → IsOwned x (first_authentication x s user o).0
  first_authentication-IsOwned s user (some before) e w = w
  first_authentication-IsOwned s user none e w = record {
    before = λ nobody. cc;
    owner = nothing_owned user s.conns (w.before e).0;
    stream_owner = no_streams user s.streams (w.before e).2;
  }

  authenticated-IsOwned :
      (s : ServerSession x) (o : Option ℕ) → IsOwned x s → IsOwned x (authenticated x s o).0
  authenticated-IsOwned s none w = w
  authenticated-IsOwned s (some user) w = first_authentication-IsOwned s user s.auth_user refl w

  pub handle_message-IsOwned :
      (auth_first : Bool) (s : ServerSession x) (bytes : List ℕ)
      → IsOwned x s
      → IsOwned x (handle_message x auth_first s bytes).0
  unfolding handle_message
  handle_message-IsOwned auth_first s [] w = w
  handle_message-IsOwned auth_first s (b ∷ []) w = w
  handle_message-IsOwned auth_first s (version ∷ command ∷ rest) w =
      if-IsOwned (nat_beq version tuic_version) _ _
        (if-IsOwned (nat_beq command command_packet) _ _
          (wait_auth-IsOwned auth_first s _ w
            (received-IsOwned s false (decode_udp_message x rest) w))
          (if-IsOwned (nat_beq command command_heartbeat) (s, returned) (s, failed unknown_command)
            w w))
        w

  module _ (authenticate : List ℕ → List ℕ → Option ℕ) where
    with_payload-IsOwned :
        (s : ServerSession x) (r : Result (List ℕ × List ℕ))
        → IsOwned x s
        → IsOwned x (with_payload x authenticate s r).0
    with_payload-IsOwned s (err e) w = w
    with_payload-IsOwned s (ok (payload, rest)) w =
        authenticated-IsOwned s (authenticate (take 16 payload) (drop 16 payload)) w

    with_header-IsOwned :
        (auth_first : Bool) (s : ServerSession x) (r : Result (List ℕ × List ℕ))
        → IsOwned x s
        → IsOwned x (with_header x authenticate auth_first s r).0
    with_header-IsOwned auth_first s (err e) w = w
    with_header-IsOwned auth_first s (ok ([], rest)) w = w
    with_header-IsOwned auth_first s (ok (b ∷ [], rest)) w = w
    with_header-IsOwned auth_first s (ok (b ∷ c ∷ d ∷ more, rest)) w = w
    with_header-IsOwned auth_first s (ok (version ∷ command ∷ [], rest)) w =
        if-IsOwned (nat_beq version tuic_version) _ _
          (if-IsOwned (nat_beq command command_authenticate) _ _
            (with_payload-IsOwned s (read_full 48 rest) w)
            (if-IsOwned (nat_beq command command_packet) _ _
              (handle_pending_uni_stream-IsOwned auth_first s command rest w)
              (if-IsOwned (nat_beq command command_dissociate)
                (handle_pending_uni_stream x auth_first s command rest) (s, failed unknown_command)
                (handle_pending_uni_stream-IsOwned auth_first s command rest w) w)))
          w

    pub handle_uni_stream-IsOwned :
        (auth_first : Bool) (s : ServerSession x) (bytes : List ℕ)
        → IsOwned x s
        → IsOwned x (handle_uni_stream x authenticate auth_first s bytes).0
    unfolding handle_uni_stream
    handle_uni_stream-IsOwned auth_first s bytes w =
        with_header-IsOwned auth_first s (read_full 2 bytes) w

  either-IsOwned :
      (b : Bool) (p q : ServerSession x)
      → IsOwned x p
      → IsOwned x q
      → IsOwned x (if b then p else q)
  either-IsOwned true p q wp wq = wp
  either-IsOwned false p q wp wq = wq

  none_found :
      (number : ℕ) (c : UdpPacketConn x.Destination) (conns : Map ℕ (UdpPacketConn x.Destination))
      → conns ≡ []
      → lookup number conns ≢ some c
  none_found number c [] e found = cc (lookup-empty {V = UdpPacketConn x.Destination} number, found)
  none_found number c (p ∷ conns) e found = cc

  closed-IsOwned :
      (s : ServerSession x) (number : ℕ) (o : Option (UdpPacketConn x.Destination))
      → lookup number s.conns ≡ o
      → IsOwned x s
      → IsOwned x (closed x s number o)
  closed-IsOwned s number none e w = w
  closed-IsOwned s number (some c) e w =
      let conns = insert number (record c { is_done = true; is_closed = true }) s.conns in
      let shut : ServerSession x = record s {
        conns = conns;
        udp_conn_map = delete c.session_id s.udp_conn_map;
      } in
      either-IsOwned c.is_closed s shut w (record {
        before = λ nobody. absurd (none_found number c s.conns (w.before nobody).0 e);
        owner =
            insert-All (Owner s) number (record c { is_done = true; is_closed = true }) s.conns
              (All-lookup (Owner s) s.conns number c w.owner e) w.owner;
        stream_owner = w.stream_owner;
      })

  pub close_conn-IsOwned :
      (s : ServerSession x) (number : ℕ) → IsOwned x s → IsOwned x (close_conn x s number)
  unfolding close_conn
  close_conn-IsOwned s number w = closed-IsOwned s number (lookup number s.conns) refl w
