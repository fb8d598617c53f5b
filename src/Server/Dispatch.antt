-- ===== src/Server/Dispatch.antt =====
-- src/server.rs: `handle_control_packet` and the receive loop in front of it.
use just_another_vpn_server.Prelude.{
  ℕ, ◌+◌, ◌%◌, ◌/◌, ◌^◌, Bool, true, false, not, List, [], ◌∷◌, Option, none, some, ◌&&◌, ◌==◌,
  if◌then◌else◌, Result, ok, err, Error,
}
use just_another_vpn_server.Prelude.Steps.{
  Step, ◌>>=◌, ◌>>◌, done, get, modify, lift, when, bail_when,
}
use just_another_vpn_server.Prelude.Maps.{lookup, insert, has_key}
use just_another_vpn_server.Replay.{check_and_set}
use just_another_vpn_server.Protocol.{
  ControlPacket, OpCode, control_hard_reset_client_v1, control_hard_reset_client_v2,
  control_hard_reset_client_v3, control_soft_reset_v1, control_v1, parse, from_u8, is_data,
}
use just_another_vpn_server.Session
use just_another_vpn_server.Session.{
  State, Transport, udp, waiting_hard_reset, handshaking, key_exchange, push_pending, established,
  closed, RekeyTrack,
}
use just_another_vpn_server.Session.Control.{
  process_acks, note_received, make_hard_reset_reply, make_soft_reset_reply,
}
use just_another_vpn_server.Session.Slots.{finalize_keys}
use just_another_vpn_server.Server.{Env, VpnServer, Locked}
use just_another_vpn_server.Server.Tls
use just_another_vpn_server.Server.Wire.{
  on_session, set_session, on_tls, send_and_track, flush_outgoing, unwrap_control,
}
use just_another_vpn_server.Server.Plane.{drive_control_plane}
use just_another_vpn_server.Server.Rekeying.{handle_rekey_control}
use just_another_vpn_server.Server.Traffic.{route_data}
use Error.{replay_rejected}

abbrev pub is_hard_reset : OpCode → Bool
is_hard_reset control_hard_reset_client_v1 = true
is_hard_reset control_hard_reset_client_v2 = true
is_hard_reset control_hard_reset_client_v3 = true
is_hard_reset _ = false

abbrev is_handshaking : State → Bool
is_handshaking handshaking = true
is_handshaking _ = false

abbrev pub is_established : State → Bool
is_established established = true
is_established _ = false

abbrev pub or_zero : Option ℕ → ℕ
or_zero none = 0
or_zero (some n) = n

module _ {Conn : Type 0} where
  -- A handler that holds the lock of the session at an address: its changes stay, whether or not it
  -- fails.
  unfoldable pub with_locked :
      {A : Type 0} → ℕ → Session.Session Conn → Step (Locked Conn) A → Step (VpnServer Conn) A
  with_locked addr sess m self =
      let r = m (record { sess = sess; server = self }) in
      let sessions = insert r.1.server.sessions addr r.1.sess in
      (r.0, record r.1.server { sessions = sessions })

  -- A handler of a session that is not in the table yet; the session is returned.
  unfoldable pub with_fresh :
      Session.Session Conn
      → Step (Locked Conn) (Unit {0})
      → Step (VpnServer Conn) (Session.Session Conn)
  with_fresh sess m self =
      let r = m (record { sess = sess; server = self }) in
      (elim r.0 [ ok u ↦ ok r.1.sess | err e ↦ err e ], r.1.server)

  unfoldable pub check_replay : Option ℕ → Step (Locked Conn) (Unit {0})
  check_replay none l = (ok tt, l)
  check_replay (some pid) l =
      let r = check_and_set l.sess.tls_auth_replay pid in
      let sess = record l.sess { tls_auth_replay = r.0 } in
      bail_when (not r.1) replay_rejected (record l { sess = sess })

  unfoldable pub seed_replay : Option ℕ → Session.Session Conn → Session.Session Conn
  seed_replay none sess = sess
  seed_replay (some pid) sess = record sess {
    tls_auth_replay = (check_and_set sess.tls_auth_replay pid).0;
  }

  -- `self.sessions`, `self.peers` and the worker of the session.
  unfoldable pub register : ℕ → Session.Session Conn → VpnServer Conn → VpnServer Conn
  register addr sess self = record self {
    sessions = insert self.sessions addr sess;
    peers = insert self.peers sess.peer_id addr;
    data_routes = insert self.data_routes sess.peer_id addr;
  }

  abbrev pub is_rekey : Option (RekeyTrack Conn) → ℕ → Bool
  is_rekey none key_id = false
  is_rekey (some rk) key_id = rk.key_id == key_id

  abbrev pub is_rekeying : Option (RekeyTrack Conn) → Bool
  is_rekeying none = false
  is_rekeying (some rk) = true

module _ {Conn : Type 0} (env : Env Conn) where
  -- The peer id is `fetch_add(1) & 0x00FF_FFFF`.
  unfoldable pub start_session :
      ℕ → ControlPacket → Option ℕ → Transport → Step (VpnServer Conn) (Unit {0})
  start_session addr ctrl replay_pid transport = do
    tls ← lift (Tls.new env.rustls)
    self ← get
    let peer_id = self.next_peer_id % 2 ^ 24
    modify (λ v. record v { next_peer_id = (v.next_peer_id + 1) % 2 ^ 32 })
    let sess =
        Session.new env.random_session_id tls peer_id transport env.random1 env.random2 env.now
    let sess1 = record sess { client_session_id = ctrl.session_id; state = handshaking }
    let sess2 = seed_replay replay_pid sess1
    let reply = make_hard_reset_reply sess2 (or_zero ctrl.packet_id)
    sess3 ← with_fresh reply.0 (send_and_track env reply.1)
    modify (register addr sess3)

  unfoldable pub handle_main_control : ℕ → ControlPacket → Step (Locked Conn) (Unit {0})
  handle_main_control addr ctrl = do
    on_tls (Tls.feed env.rustls ctrl.payload)
    set_session (λ s.
        if is_handshaking s.state && not (env.rustls.is_handshaking s.tls.conn)
        then finalize_keys (Tls.peer_name env.rustls s.tls.conn) s
        else s)
    drive_control_plane env addr
    flush_outgoing env

  unfoldable pub handle_control : ℕ → ControlPacket → Step (Locked Conn) (Unit {0})
  handle_control addr ctrl l =
      (if is_rekey l.sess.rekey ctrl.key_id
          then handle_rekey_control env ctrl
          else handle_main_control addr ctrl)
        l

  unfoldable pub begin_rekey : ControlPacket → Step (Locked Conn) (Unit {0})
  begin_rekey ctrl = do
    tls ← lift (Tls.new env.rustls)
    set_session (λ s. Session.start_rekey s ctrl.key_id tls env.random1 env.random2)
    reply ← on_session (λ s. make_soft_reset_reply s ctrl.key_id (or_zero ctrl.packet_id))
    send_and_track env reply

  unfoldable pub handle_soft_reset : ControlPacket → Step (Locked Conn) (Unit {0})
  handle_soft_reset ctrl l =
      (if is_rekeying l.sess.rekey
          then done
          else when (is_established l.sess.state) (begin_rekey ctrl))
        l

  unfoldable pub handle_op : ℕ → ControlPacket → OpCode → Step (Locked Conn) (Unit {0})
  handle_op addr ctrl control_v1 = handle_control addr ctrl
  handle_op addr ctrl control_soft_reset_v1 = handle_soft_reset ctrl
  handle_op addr ctrl _ = done

  abbrev pub note_packet_id : Option ℕ → Session.Session Conn → Session.Session Conn
  note_packet_id none s = s
  note_packet_id (some pid) s = note_received s pid env.now

  unfoldable pub handle_known : ℕ → ControlPacket → Option ℕ → Step (Locked Conn) (Unit {0})
  handle_known addr ctrl replay_pid = do
    set_session (λ s. record s { last_seen = env.now })
    check_replay replay_pid
    set_session (λ s. process_acks s ctrl.acks)
    set_session (note_packet_id ctrl.packet_id)
    handle_op addr ctrl ctrl.op

  abbrev pub handle_at :
      ℕ
      → ControlPacket
      → Option ℕ
      → Option (Session.Session Conn)
      → Step (VpnServer Conn) (Unit {0})
  handle_at addr ctrl replay_pid none = done
  handle_at addr ctrl replay_pid (some sess) =
      with_locked addr sess (handle_known addr ctrl replay_pid)

  unfoldable pub handle_parsed :
      ℕ → ControlPacket → Option ℕ → Transport → Step (VpnServer Conn) (Unit {0})
  handle_parsed addr ctrl replay_pid transport self =
      (if is_hard_reset ctrl.op && not (has_key self.sessions addr)
          then start_session addr ctrl replay_pid transport
          else handle_at addr ctrl replay_pid (lookup self.sessions addr))
        self

  unfoldable pub handle_control_packet :
      ℕ → List ℕ → Option ℕ → Transport → Step (VpnServer Conn) (Unit {0})
  handle_control_packet addr pkt replay_pid transport =
      lift (parse env.bytes pkt) >>= λ ctrl. handle_parsed addr ctrl replay_pid transport

  abbrev pub inner_or : Option (List ℕ) → List ℕ → List ℕ
  inner_or none pkt = pkt
  inner_or (some inner) pkt = inner

  abbrev pub handle_unwrapped :
      ℕ → Transport → List ℕ → Result (Option (List ℕ) × Option ℕ) → VpnServer Conn → VpnServer Conn
  handle_unwrapped addr transport pkt (err e) self = self
  handle_unwrapped addr transport pkt (ok r) self =
      (handle_control_packet addr (inner_or r.0 pkt) r.1 transport self).1

  abbrev pub handle_packet :
      ℕ → Transport → List ℕ → Result OpCode → VpnServer Conn → VpnServer Conn
  handle_packet addr transport pkt (err e) self = self
  handle_packet addr transport pkt (ok op) self =
      if is_data op
      then route_data pkt self
      else handle_unwrapped addr transport pkt (unwrap_control env self pkt) self

  -- What both receive loops do with a packet: every failure is logged and the loop goes on.
  unfoldable pub receive_over : ℕ → Transport → List ℕ → VpnServer Conn → VpnServer Conn
  receive_over addr transport [] self = self
  receive_over addr transport (first ∷ more) self =
      handle_packet addr transport (first ∷ more) (from_u8 (first / 2 ^ 3)) self

  -- The body of the UDP receive loop.
  unfoldable pub receive : ℕ → List ℕ → VpnServer Conn → VpnServer Conn
  unfolding receive_over
  receive addr pkt self = receive_over addr (udp addr) pkt self
