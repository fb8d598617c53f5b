-- ===== src/Server/Rekeying.antt =====
-- src/server.rs: the rekey track, a second key exchange beside the main one.
use just_another_vpn_server.Prelude.{
  ℕ, Bool, true, false, not, Option, none, some, drop, length, is_empty, ◌&&◌, if◌then◌else◌, ok,
}
use just_another_vpn_server.Prelude.Bytes.{to_be}
use just_another_vpn_server.Prelude.Steps.{Step, ◌>>=◌, ◌>>◌, pure, done, get, lift, when}
use just_another_vpn_server.Prf.{derive_openvpn_key_data}
use just_another_vpn_server.Protocol.{ControlPacket}
use just_another_vpn_server.ControlChannel.{ClientKeyMethod2, Pop, ready, need_more, try_parse}
use just_another_vpn_server.Session.{
  Session, RekeyTrack, RekeyState, rekey_handshaking, rekey_key_exchange, TlsSession,
  max_tls_payload_per_control,
}
use just_another_vpn_server.Session.Slots.{install_slot, new_slot, promote_slot}
use just_another_vpn_server.Server.{Env, Locked}
use just_another_vpn_server.Server.Tls.{feed, send_plaintext, take_outgoing}
use just_another_vpn_server.Server.Wire.{set_session, send_chunks, chunks}
use just_another_vpn_server.Server.Plane.{key_method_reply}

abbrev is_handshaking : RekeyState → Bool
is_handshaking rekey_handshaking = true
is_handshaking rekey_key_exchange = false

abbrev is_key_exchange : RekeyState → Bool
is_key_exchange rekey_handshaking = false
is_key_exchange rekey_key_exchange = true

module _ {Conn : Type 0} where
  abbrev pub set_track : (RekeyTrack Conn → RekeyTrack Conn) → Session Conn → Session Conn
  set_track f sess = record sess { rekey = elim sess.rekey [ none ↦ none | some rk ↦ some (f rk) ] }

  -- A step on the TLS connection of the track `rk`.
  abbrev pub on_track_tls :
      {A : Type 0} → RekeyTrack Conn → Step (TlsSession Conn) A → Step (Locked Conn) A
  on_track_tls rk m l =
      let r = m rk.tls in
      let sess = record l.sess { rekey = some (record rk { tls = r.1 }) } in
      (r.0, record l { sess = sess })

  abbrev pub track :
      {A : Type 0}
      → A
      → (RekeyTrack Conn → Step (Locked Conn) A)
      → Option (RekeyTrack Conn)
      → Step (Locked Conn) A
  track a f none = pure a
  track a f (some rk) = f rk

  -- `if let Some(rk) = sess.rekey`, with `a` as the result where there is none.
  abbrev pub with_track :
      {A : Type 0} → A → (RekeyTrack Conn → Step (Locked Conn) A) → Step (Locked Conn) A
  with_track a f l = track a f l.sess.rekey l

module _ {Conn : Type 0} (env : Env Conn) where
  unfoldable pub rekey_key_method :
      RekeyTrack Conn → ClientKeyMethod2 → ℕ → Step (Locked Conn) (Unit {0})
  rekey_key_method rk km n = do
    l ← get
    let c_sid = to_be 8 l.sess.client_session_id
    let s_sid = to_be 8 l.sess.server_session_id
    let key_data =
        derive_openvpn_key_data env.crypto km.pre_master km.random1 rk.server_random1 km.random2
          rk.server_random2 c_sid s_sid
    set_session (λ s. install_slot s (new_slot rk.key_id key_data))
    let tls = record rk.tls { plaintext_in = drop n rk.tls.plaintext_in }
    on_track_tls (record rk { tls = tls })
        (send_plaintext env.rustls
          (key_method_reply l.server.cfg rk.server_random1 rk.server_random2))
    set_session (set_track (λ t. record t { key_method_sent = true }))

  abbrev pub on_rekey_key_method :
      RekeyTrack Conn → Pop ClientKeyMethod2 → Step (Locked Conn) (Unit {0})
  on_rekey_key_method rk need_more = done
  on_rekey_key_method rk (ready km n) = rekey_key_method rk km n

  unfoldable pub drive_rekey_control_plane : Step (Locked Conn) (Unit {0})
  drive_rekey_control_plane = with_track tt λ rk.
      when (is_key_exchange rk.state)
        (lift (try_parse env.crypto rk.tls.plaintext_in) >>= on_rekey_key_method rk)

  unfoldable pub flush_rekey_outgoing : Step (Locked Conn) (Unit {0})
  flush_rekey_outgoing = with_track tt λ rk.
      on_track_tls rk (λ t. let r = take_outgoing env.rustls t in (ok r.0, r.1)) >>= λ out.
      when (not (is_empty out))
        (send_chunks env rk.key_id (chunks (length out) max_tls_payload_per_control out))

  unfoldable pub feed_rekey : ControlPacket → RekeyTrack Conn → Step (Locked Conn) (Unit {0})
  feed_rekey ctrl rk =
      on_track_tls rk (feed env.rustls ctrl.payload)
      >> set_session (
          set_track λ t.
            if is_handshaking t.state && not (env.rustls.is_handshaking t.tls.conn)
            then record t { state = rekey_key_exchange }
            else t)

  -- The key id is promoted whether or not a slot has it; the track ends either way.
  unfoldable pub finish_rekey : RekeyTrack Conn → Step (Locked Conn) (Unit {0})
  finish_rekey rk = when rk.key_method_sent (
      set_session (λ s. (promote_slot s rk.key_id).0)
      >> set_session (λ s. record s { rekey = none; last_rekey_at = env.now }))

  unfoldable pub handle_live_rekey : ControlPacket → RekeyTrack Conn → Step (Locked Conn) (Unit {0})
  handle_live_rekey ctrl rk =
      feed_rekey ctrl rk
      >> drive_rekey_control_plane
      >> flush_rekey_outgoing
      >> with_track tt finish_rekey

  unfoldable pub handle_rekey_control : ControlPacket → Step (Locked Conn) (Unit {0})
  handle_rekey_control ctrl = with_track tt (handle_live_rekey ctrl)
