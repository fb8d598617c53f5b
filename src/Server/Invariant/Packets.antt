-- ===== src/Server/Invariant/Packets.antt =====
-- src/server.rs: a control packet in a rekey, on the main connection, and for a new session.
use just_another_vpn_server.Prelude.{
  ℕ, Bool, true, false, not, Option, none, some, ok, if◌then◌else◌, List, length, is_empty, drop,
}
use just_another_vpn_server.Prelude.Steps.{Step, ◌>>◌, when, done, lift, continue-keeps}
use just_another_vpn_server.Prelude.Keeps.{
  Keeps, bind-Keeps, then-Keeps, lift-Keeps, if-Keeps, when-Keeps, done-Keeps, bail_when-Keeps,
}
use just_another_vpn_server.Protocol.{
  ControlPacket, OpCode, control_v1, control_soft_reset_v1, control_hard_reset_client_v1,
  control_hard_reset_server_v1, ack_v1, data_v1, control_hard_reset_client_v2,
  control_hard_reset_server_v2, control_hard_reset_client_v3, control_wkc_v1, data_v2,
}
use just_another_vpn_server.ControlChannel.{ClientKeyMethod2, Pop, ready, need_more, try_parse}
use just_another_vpn_server.Session
use just_another_vpn_server.Session.{
  Session, KeySlot, RekeyTrack, TlsSession, max_tls_payload_per_control,
}
use just_another_vpn_server.Session.Slots.{install_slot, finalize_keys, new_slot}
use just_another_vpn_server.Session.Control.{process_acks, make_soft_reset_reply}
use just_another_vpn_server.Prelude.Bytes.{to_be}
use just_another_vpn_server.Prf.{derive_openvpn_key_data}
use just_another_vpn_server.Server.{Env, Locked}
use just_another_vpn_server.Server.Tls
use just_another_vpn_server.Server.Tls.{feed, send_plaintext, take_outgoing}
use just_another_vpn_server.Server.Wire.{set_session, on_tls, chunks, flush_outgoing}
use just_another_vpn_server.Server.Plane.{drive_control_plane, key_method_reply}
use just_another_vpn_server.Server.Rekeying.{
  on_track_tls, track, with_track, rekey_key_method, on_rekey_key_method, drive_rekey_control_plane,
  flush_rekey_outgoing, feed_rekey, finish_rekey, handle_live_rekey, handle_rekey_control,
}
use just_another_vpn_server.Server.Dispatch.{
  check_replay, handle_main_control, handle_control, begin_rekey, handle_soft_reset, handle_op,
  handle_known, is_rekey, is_rekeying, is_established, note_packet_id,
}
use just_another_vpn_server.Server.Invariant.{IsKeyed, LockedKeyed}
use just_another_vpn_server.Server.Invariant.Sessions.{
  install_slot-IsKeyed, promote_slot-IsKeyed, finalize_keys-IsKeyed, process_acks-IsKeyed,
  note_received-IsKeyed,
}
use just_another_vpn_server.Server.Invariant.Sends.{
  set_session-Keeps, on_tls-Keeps, send_and_track-Keeps, send_chunks-Keeps, flush_outgoing-Keeps,
}
use just_another_vpn_server.Server.Invariant.Handlers.{drive_control_plane-Keeps}

module _ {Conn : Type 0} where
  with_track-Keeps :
      {A : Type 0} (a : A) (f : RekeyTrack Conn → Step (Locked Conn) A)
      → ((rk : RekeyTrack Conn) → Keeps LockedKeyed (f rk))
      → Keeps LockedKeyed (with_track a f)
  with_track-Keeps a f hf = record { kept_at = λ l h. tracked l.sess.rekey l h }
    where
      tracked :
          (rekey : Option (RekeyTrack Conn)) (l : Locked Conn)
          → LockedKeyed l
          → LockedKeyed (track a f rekey l).1
      tracked none l h = h
      tracked (some rk) l h = (hf rk).kept_at l h

module _ {Conn : Type 0} (env : Env Conn) where
  rekey_key_method-Keeps :
      (rk : RekeyTrack Conn) (km : ClientKeyMethod2) (n : ℕ)
      → Keeps LockedKeyed (rekey_key_method env rk km n)
  unfolding rekey_key_method
  rekey_key_method-Keeps rk km n = record {
    kept_at = λ l h.
        let slot : KeySlot = new_slot rk.key_id (
          derive_openvpn_key_data env.crypto km.pre_master km.random1 rk.server_random1 km.random2
            rk.server_random2 (to_be 8 l.sess.client_session_id)
            (to_be 8 l.sess.server_session_id)) in
        let tls : TlsSession Conn = record rk.tls { plaintext_in = drop n rk.tls.plaintext_in } in
        let reply : List ℕ = key_method_reply l.server.cfg rk.server_random1 rk.server_random2 in
        continue-keeps {B = Unit {0}} LockedKeyed
          (on_track_tls (record rk { tls = tls }) (send_plaintext env.rustls reply)
            (record l { sess = install_slot l.sess slot }))
          _ (install_slot-IsKeyed l.sess slot h.0, h.1) λ u l2 h2. h2;
  }

  drive_rekey_control_plane-Keeps : Keeps LockedKeyed (drive_rekey_control_plane env)
  unfolding drive_rekey_control_plane
  drive_rekey_control_plane-Keeps = with_track-Keeps tt _ λ rk. when-Keeps LockedKeyed _ _ (
      bind-Keeps LockedKeyed (lift (try_parse env.crypto rk.tls.plaintext_in))
        (on_rekey_key_method env rk)
        (lift-Keeps LockedKeyed (try_parse env.crypto rk.tls.plaintext_in)) (exchanged rk))
    where
      exchanged :
          (rk : RekeyTrack Conn) (parsed : Pop ClientKeyMethod2)
          → Keeps LockedKeyed (on_rekey_key_method env rk parsed)
      exchanged rk need_more = done-Keeps LockedKeyed
      exchanged rk (ready km n) = rekey_key_method-Keeps rk km n

  flush_rekey_outgoing-Keeps : Keeps LockedKeyed (flush_rekey_outgoing env)
  unfolding flush_rekey_outgoing
  flush_rekey_outgoing-Keeps = with_track-Keeps tt _ λ rk.
      bind-Keeps LockedKeyed
        (on_track_tls rk (λ t. let r = take_outgoing env.rustls t in (ok r.0, r.1))) _
        (record { kept_at = λ l h. h })
        λ out.
          when-Keeps LockedKeyed (not (is_empty out)) _
            (send_chunks-Keeps env rk.key_id (chunks (length out) max_tls_payload_per_control out))

  feed_rekey-Keeps :
      (ctrl : ControlPacket) (rk : RekeyTrack Conn) → Keeps LockedKeyed (feed_rekey env ctrl rk)
  unfolding feed_rekey
  feed_rekey-Keeps ctrl rk = record {
    kept_at = λ l h.
        continue-keeps {B = Unit {0}} LockedKeyed (on_track_tls rk (feed env.rustls ctrl.payload) l)
          _ h λ u l2 h2. h2;
  }

  finish_rekey-Keeps : (rk : RekeyTrack Conn) → Keeps LockedKeyed (finish_rekey env rk)
  unfolding finish_rekey
  finish_rekey-Keeps rk =
      when-Keeps LockedKeyed rk.key_method_sent _
        (record { kept_at = λ l h. (promote_slot-IsKeyed l.sess rk.key_id h.0, h.1) })

  handle_rekey_control-Keeps :
      (ctrl : ControlPacket) → Keeps LockedKeyed (handle_rekey_control env ctrl)
  unfolding handle_rekey_control handle_live_rekey
  handle_rekey_control-Keeps ctrl = with_track-Keeps tt (handle_live_rekey env ctrl) λ rk.
      then-Keeps LockedKeyed
        (feed_rekey env ctrl rk >> drive_rekey_control_plane env >> flush_rekey_outgoing env)
        (with_track tt (finish_rekey env))
        (then-Keeps LockedKeyed (feed_rekey env ctrl rk >> drive_rekey_control_plane env)
          (flush_rekey_outgoing env)
          (then-Keeps LockedKeyed (feed_rekey env ctrl rk) (drive_rekey_control_plane env)
            (feed_rekey-Keeps ctrl rk) drive_rekey_control_plane-Keeps)
          flush_rekey_outgoing-Keeps)
        (with_track-Keeps tt (finish_rekey env) finish_rekey-Keeps)

  -- The handshake ends: the session waits for the key exchange, of which nothing is asked yet.
  finalized-IsKeyed :
      (test : Bool) (s : Session Conn)
      → IsKeyed s
      → IsKeyed (if test then finalize_keys (Tls.peer_name env.rustls s.tls.conn) s else s)
  finalized-IsKeyed true s h = finalize_keys-IsKeyed (Tls.peer_name env.rustls s.tls.conn) s
  finalized-IsKeyed false s h = h

  handle_main_control-Keeps :
      (addr : ℕ) (ctrl : ControlPacket) → Keeps LockedKeyed (handle_main_control env addr ctrl)
  unfolding handle_main_control
  handle_main_control-Keeps addr ctrl =
      then-Keeps LockedKeyed (on_tls (feed env.rustls ctrl.payload)) _
        (on_tls-Keeps (feed env.rustls ctrl.payload))
        (then-Keeps LockedKeyed (set_session _) _
          (set_session-Keeps _ (λ s h. finalized-IsKeyed _ s h))
          (then-Keeps LockedKeyed (drive_control_plane env addr) (flush_outgoing env)
            (drive_control_plane-Keeps env addr) (flush_outgoing-Keeps env)))

  handle_control-Keeps :
      (addr : ℕ) (ctrl : ControlPacket) → Keeps LockedKeyed (handle_control env addr ctrl)
  unfolding handle_control
  handle_control-Keeps addr ctrl = record {
    kept_at = λ l h.
        (if-Keeps LockedKeyed (is_rekey l.sess.rekey ctrl.key_id) (handle_rekey_control env ctrl)
            (handle_main_control env addr ctrl) (handle_rekey_control-Keeps ctrl)
            (handle_main_control-Keeps addr ctrl)).kept_at
          l h;
  }

  begin_rekey-Keeps : (ctrl : ControlPacket) → Keeps LockedKeyed (begin_rekey env ctrl)
  unfolding begin_rekey Session.start_rekey make_soft_reset_reply
  begin_rekey-Keeps ctrl =
      bind-Keeps LockedKeyed (lift (Tls.new env.rustls)) _
        (lift-Keeps LockedKeyed (Tls.new env.rustls))
        λ tls. record { kept_at = λ l h. (send_and_track-Keeps env _).kept_at _ h }

  handle_soft_reset-Keeps : (ctrl : ControlPacket) → Keeps LockedKeyed (handle_soft_reset env ctrl)
  unfolding handle_soft_reset
  handle_soft_reset-Keeps ctrl = record {
    kept_at = λ l h.
        (if-Keeps LockedKeyed (is_rekeying l.sess.rekey) done
            (when (is_established l.sess.state) (begin_rekey env ctrl)) (done-Keeps LockedKeyed)
            (when-Keeps LockedKeyed (is_established l.sess.state) (begin_rekey env ctrl)
              (begin_rekey-Keeps ctrl))).kept_at
          l h;
  }

  handle_op-Keeps :
      (addr : ℕ) (ctrl : ControlPacket) (op : OpCode)
      → Keeps LockedKeyed (handle_op env addr ctrl op)
  unfolding handle_op
  handle_op-Keeps addr ctrl control_v1 = handle_control-Keeps addr ctrl
  handle_op-Keeps addr ctrl control_soft_reset_v1 = handle_soft_reset-Keeps ctrl
  handle_op-Keeps addr ctrl control_hard_reset_client_v1 = done-Keeps LockedKeyed
  handle_op-Keeps addr ctrl control_hard_reset_server_v1 = done-Keeps LockedKeyed
  handle_op-Keeps addr ctrl ack_v1 = done-Keeps LockedKeyed
  handle_op-Keeps addr ctrl data_v1 = done-Keeps LockedKeyed
  handle_op-Keeps addr ctrl control_hard_reset_client_v2 = done-Keeps LockedKeyed
  handle_op-Keeps addr ctrl control_hard_reset_server_v2 = done-Keeps LockedKeyed
  handle_op-Keeps addr ctrl data_v2 = done-Keeps LockedKeyed
  handle_op-Keeps addr ctrl control_hard_reset_client_v3 = done-Keeps LockedKeyed
  handle_op-Keeps addr ctrl control_wkc_v1 = done-Keeps LockedKeyed

  check_replay-Keeps : (pid : Option ℕ) → Keeps (LockedKeyed {Conn = Conn}) (check_replay pid)
  unfolding check_replay
  check_replay-Keeps none = record { kept_at = λ l h. h }
  check_replay-Keeps (some pid) = record {
    kept_at = λ l h. (bail_when-Keeps LockedKeyed _ _).kept_at _ h;
  }

  note_packet_id-IsKeyed :
      (pid : Option ℕ) (s : Session Conn) → IsKeyed s → IsKeyed (note_packet_id env pid s)
  note_packet_id-IsKeyed none s h = h
  note_packet_id-IsKeyed (some pid) s h = note_received-IsKeyed s pid env.now h

  -- A control packet of a session that is in the table.
  pub handle_known-Keeps :
      (addr : ℕ) (ctrl : ControlPacket) (replay_pid : Option ℕ)
      → Keeps LockedKeyed (handle_known env addr ctrl replay_pid)
  unfolding handle_known
  handle_known-Keeps addr ctrl replay_pid =
      then-Keeps LockedKeyed (set_session (λ s. record s { last_seen = env.now })) _
        (set_session-Keeps (λ s. record s { last_seen = env.now }) (λ s h. h))
        (then-Keeps LockedKeyed (check_replay replay_pid) _ (check_replay-Keeps replay_pid) (
          then-Keeps LockedKeyed (set_session (λ s. process_acks s ctrl.acks)) _
            (set_session-Keeps (λ s. process_acks s ctrl.acks)
              (λ s h. process_acks-IsKeyed s ctrl.acks h))
            (then-Keeps LockedKeyed (set_session (note_packet_id env ctrl.packet_id)) _
              (set_session-Keeps (note_packet_id env ctrl.packet_id)
                (note_packet_id-IsKeyed ctrl.packet_id))
              (handle_op-Keeps addr ctrl ctrl.op))))
