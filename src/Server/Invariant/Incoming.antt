-- ===== src/Server/Invariant/Incoming.antt =====
-- src/server.rs: a packet that arrives, on a table of sessions that are keyed.
use just_another_vpn_server.Prelude.{
  ℕ, [], ◌≡◌, refl, subst, Bool, true, false, not, ◌&&◌, Option, none, some, Result, ok, err,
  if◌then◌else◌, List, ◌∷◌, ◌/◌, ◌^◌, ok-injective, ◌+◌, ◌%◌,
}
use just_another_vpn_server.Prelude.Steps.{Step, modify, continue_with, continue-given}
use just_another_vpn_server.Prelude.Keeps.{Keeps}
use just_another_vpn_server.Prelude.Maps.{lookup, has_key}
use just_another_vpn_server.Protocol.{
  ControlPacket, OpCode, parse, from_u8, is_data, parse_data, DataPacketV2,
}
use just_another_vpn_server.Session
use just_another_vpn_server.Session.{Session, Transport, TlsSession, handshaking}
use just_another_vpn_server.Session.Control.{make_hard_reset_reply}
use just_another_vpn_server.Server.{Env, VpnServer, Locked}
use just_another_vpn_server.Server.Tls
use just_another_vpn_server.Server.Wire.{send_and_track, unwrap_control}
use just_another_vpn_server.Server.Traffic.{route_data, route_parsed, queue_for}
use just_another_vpn_server.Server.Dispatch.{
  with_fresh, or_zero, inner_or, start_session, seed_replay, register, is_hard_reset, handle_at,
  handle_parsed, handle_control_packet, handle_unwrapped, handle_packet, receive_over, handle_known,
}
use just_another_vpn_server.Server.Invariant.{IsKeyed, LockedKeyed}
use just_another_vpn_server.Server.Invariant.Sends.{ServerKeyed, send_and_track-Keeps}
use just_another_vpn_server.Server.Invariant.Packets.{handle_known-Keeps}
use just_another_vpn_server.Server.Invariant.Tables.{insert-AllKeyed, with_locked-keyed}

module _ {Conn : Type 0} where
  -- A session that is not in the table yet, and the server behind it.
  with_fresh-IsKeyed :
      (sess : Session Conn) (m : Step (Locked Conn) (Unit {0})) (v : VpnServer Conn)
      → Keeps LockedKeyed m
      → IsKeyed sess
      → ServerKeyed v
      → ServerKeyed (with_fresh sess m v).1
        × ((s : Session Conn) → (with_fresh sess m v).0 ≡ ok s → IsKeyed s)
  unfolding with_fresh
  with_fresh-IsKeyed sess m v hm keyed all =
      fresh (m (record { sess = sess; server = v }))
        (hm.kept_at (record { sess = sess; server = v }) (keyed, all))
    where
      fresh :
          (r : Result (Unit {0}) × Locked Conn)
          → LockedKeyed r.1
          → ServerKeyed r.1.server
            × ((s : Session Conn)
                → (elim r.0 as (λ _. Result (Session Conn)) [ ok u ↦ ok r.1.sess | err e ↦ err e ])
                  ≡ ok s
                → IsKeyed s)
      fresh (ok u, l) h = (h.1, λ s e. subst (λ (x : Session Conn). IsKeyed x) (ok-injective e) h.0)
      fresh (err why, l) h = (h.1, λ s e. absurd cc)

  seed_replay-IsKeyed :
      (pid : Option ℕ) (sess : Session Conn) → IsKeyed sess → IsKeyed (seed_replay pid sess)
  unfolding seed_replay
  seed_replay-IsKeyed none sess h = h
  seed_replay-IsKeyed (some pid) sess h = h

  route_data-keyed :
      (pkt : List ℕ) (v : VpnServer Conn) → ServerKeyed v → ServerKeyed (route_data pkt v)
  unfolding route_data
  route_data-keyed pkt v h = routed (parse_data pkt)
    where
      queued : (addr : Option ℕ) → ServerKeyed (queue_for pkt addr v)
      queued none = h
      queued (some addr) = h

      routed : (parsed : Result DataPacketV2) → ServerKeyed (route_parsed pkt parsed v)
      routed (err e) = h
      routed (ok dp) = queued (lookup v.data_routes dp.peer_id)

  -- The session is put into the table, if it could be made.
  registered-keyed :
      (addr : ℕ) (r : Result (Session Conn) × VpnServer Conn)
      → ServerKeyed r.1
      → ((s : Session Conn) → r.0 ≡ ok s → IsKeyed s)
      → ServerKeyed (continue_with r (λ s. modify (register addr s))).1
  unfolding register
  registered-keyed addr (ok s, v) h keyed = insert-AllKeyed v.sessions addr s h (keyed s refl)
  registered-keyed addr (err e, v) h keyed = h

module _ {Conn : Type 0} (env : Env Conn) where
  start_session-keyed :
      (addr : ℕ) (ctrl : ControlPacket) (replay_pid : Option ℕ) (transport : Transport)
      (v : VpnServer Conn)
      → ServerKeyed v
      → ServerKeyed (start_session env addr ctrl replay_pid transport v).1
  unfolding start_session make_hard_reset_reply
  start_session-keyed addr ctrl replay_pid transport v h =
      continue-given {B = Unit {0}} ServerKeyed (Tls.new env.rustls) v _ h λ tls _.
        let v1 : VpnServer Conn = record v { next_peer_id = (v.next_peer_id + 1) % 2 ^ 32 } in
        let first : Session Conn =
          record (Session.new env.random_session_id tls (v.next_peer_id % 2 ^ 24) transport
            env.random1 env.random2 env.now) {
              client_session_id = ctrl.session_id;
              state = handshaking;
            } in
        let sess : Session Conn = seed_replay replay_pid first in
        let reply : Session Conn × ControlPacket =
          make_hard_reset_reply sess (or_zero ctrl.packet_id) in
        let (all, keyed) =
          with_fresh-IsKeyed reply.0 (send_and_track env reply.1) v1
            (send_and_track-Keeps env reply.1) (seed_replay-IsKeyed replay_pid first tt) h in
        registered-keyed addr (with_fresh reply.0 (send_and_track env reply.1) v1) all keyed

  handle_at-keyed :
      (addr : ℕ) (ctrl : ControlPacket) (replay_pid : Option ℕ) (v : VpnServer Conn)
      → ServerKeyed v
      → (sess : Option (Session Conn)) → lookup v.sessions addr ≡ sess
      → ServerKeyed (handle_at env addr ctrl replay_pid sess v).1
  handle_at-keyed addr ctrl replay_pid v h none e = h
  handle_at-keyed addr ctrl replay_pid v h (some sess) e =
      with_locked-keyed addr sess (handle_known env addr ctrl replay_pid) v
        (handle_known-Keeps env addr ctrl replay_pid) (h addr sess e) h

  handle_parsed-keyed :
      (addr : ℕ) (ctrl : ControlPacket) (replay_pid : Option ℕ) (transport : Transport)
      (v : VpnServer Conn)
      → ServerKeyed v
      → ServerKeyed (handle_parsed env addr ctrl replay_pid transport v).1
  unfolding handle_parsed
  handle_parsed-keyed addr ctrl replay_pid transport v h =
      decided (is_hard_reset ctrl.op && not (has_key v.sessions addr))
    where
      decided :
          (test : Bool)
          → ServerKeyed
              ((if test
                  then start_session env addr ctrl replay_pid transport
                  else handle_at env addr ctrl replay_pid (lookup v.sessions addr))
                v).1
      decided true = start_session-keyed addr ctrl replay_pid transport v h
      decided false = handle_at-keyed addr ctrl replay_pid v h (lookup v.sessions addr) refl

  handle_control_packet-keyed :
      (addr : ℕ) (pkt : List ℕ) (replay_pid : Option ℕ) (transport : Transport) (v : VpnServer Conn)
      → ServerKeyed v
      → ServerKeyed (handle_control_packet env addr pkt replay_pid transport v).1
  unfolding handle_control_packet
  handle_control_packet-keyed addr pkt replay_pid transport v h =
      continue-given ServerKeyed (parse env.bytes pkt) v _ h
        λ ctrl _. handle_parsed-keyed addr ctrl replay_pid transport v h

  handle_unwrapped-keyed :
      (addr : ℕ) (transport : Transport) (pkt : List ℕ) (v : VpnServer Conn)
      (r : Result (Option (List ℕ) × Option ℕ))
      → ServerKeyed v
      → ServerKeyed (handle_unwrapped env addr transport pkt r v)
  handle_unwrapped-keyed addr transport pkt v (err e) h = h
  handle_unwrapped-keyed addr transport pkt v (ok r) h =
      handle_control_packet-keyed addr (inner_or env r.0 pkt) r.1 transport v h

  pub receive_over-keyed :
      (addr : ℕ) (transport : Transport) (pkt : List ℕ) (v : VpnServer Conn)
      → ServerKeyed v
      → ServerKeyed (receive_over env addr transport pkt v)
  unfolding receive_over
  receive_over-keyed addr transport [] v h = h
  receive_over-keyed addr transport (first ∷ more) v h = opened (from_u8 (first / 2 ^ 3))
    where
      pkt : List ℕ
      pkt = first ∷ more

      decided :
          (test : Bool)
          → ServerKeyed (
              if test
              then route_data pkt v
              else handle_unwrapped env addr transport pkt (unwrap_control env v pkt) v)
      decided true = route_data-keyed pkt v h
      decided false = handle_unwrapped-keyed addr transport pkt v (unwrap_control env v pkt) h

      opened : (op : Result OpCode) → ServerKeyed (handle_packet env addr transport pkt op v)
      opened (err e) = h
      opened (ok op) = decided (is_data op)
