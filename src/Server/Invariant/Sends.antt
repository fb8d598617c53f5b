-- ===== src/Server/Invariant/Sends.antt =====
-- src/server.rs: the steps of a handler that send, on sessions that are keyed.
use just_another_vpn_server.Prelude.{
  ℕ, [], not, Option, none, some, Bool-cases, inl, inr, List, length, is_empty,
}
use just_another_vpn_server.Prelude.Steps.{Step}
use just_another_vpn_server.Prelude.Keeps.{
  Keeps, get-Keeps, bind-Keeps, then-Keeps, if-Keeps, when-Keeps, for_each-Keeps,
}
use just_another_vpn_server.Protocol.{ControlPacket, encode}
use just_another_vpn_server.TlsAuth.{TlsAuthKey}
use just_another_vpn_server.TlsCrypt.{TlsCryptKey}
use just_another_vpn_server.Session.{Session, Transport, TlsSession, max_tls_payload_per_control}
use just_another_vpn_server.Session.Control.{next_tls_auth_pid, record_sent, make_control}
use just_another_vpn_server.Session.Slots.{active_slot}
use just_another_vpn_server.Server.{Env, VpnServer}
use just_another_vpn_server.Server.Tls.{take_outgoing}
use just_another_vpn_server.Server.Wire.{
  on_session, set_session, on_server, on_tls, wrap_with, wrap_for_wire, send, send_to_peer,
  remember, send_and_track, send_chunks, flush_acks, flush_outgoing, chunks, key_id_or_zero,
}
use just_another_vpn_server.Server.Invariant.{IsKeyed, AllKeyed, LockedKeyed}

module _ {Conn : Type 0} where
  abbrev pub ServerKeyed : VpnServer Conn → Type 0
  ServerKeyed v = AllKeyed v.sessions

  pub set_session-Keeps :
      (f : Session Conn → Session Conn)
      → ((s : Session Conn) → IsKeyed s → IsKeyed (f s))
      → Keeps LockedKeyed (set_session f)
  set_session-Keeps f hf = record { kept_at = λ l h. (hf l.sess h.0, h.1) }

  pub on_session-Keeps :
      {A : Type 0} (f : Session Conn → Session Conn × A)
      → ((s : Session Conn) → IsKeyed s → IsKeyed (f s).0)
      → Keeps LockedKeyed (on_session f)
  on_session-Keeps f hf = record { kept_at = λ l h. (hf l.sess h.0, h.1) }

  pub on_server-Keeps :
      {A : Type 0} (m : Step (VpnServer Conn) A)
      → Keeps ServerKeyed m
      → Keeps LockedKeyed (on_server m)
  on_server-Keeps m hm = record { kept_at = λ l h. (h.0, hm.kept_at l.server h.1) }

  pub on_tls-Keeps : {A : Type 0} (m : Step (TlsSession Conn) A) → Keeps LockedKeyed (on_tls m)
  on_tls-Keeps m = record { kept_at = λ l h. h }

module _ {Conn : Type 0} (env : Env Conn) where
  pub wrap_with-IsKeyed :
      (tc : Option TlsCryptKey) (ta : Option TlsAuthKey) (inner : List ℕ) (sess : Session Conn)
      → IsKeyed sess
      → IsKeyed (wrap_with env tc ta inner sess).1
  unfolding wrap_with next_tls_auth_pid
  wrap_with-IsKeyed (some tc) ta inner sess h = h
  wrap_with-IsKeyed none (some ta) inner sess h = h
  wrap_with-IsKeyed none none inner sess h = h

  wrap_for_wire-Keeps : (inner : List ℕ) → Keeps LockedKeyed (wrap_for_wire env inner)
  unfolding wrap_for_wire
  wrap_for_wire-Keeps inner = record {
    kept_at = λ l h. (wrap_with-IsKeyed l.server.tls_crypt l.server.tls_auth inner l.sess h.0, h.1);
  }

  pub send-Keeps : (to : Transport) (wire : List ℕ) → Keeps ServerKeyed (send env to wire)
  unfolding send
  send-Keeps to wire = record {
    kept_at = λ v h. elim (Bool-cases (env.accepts to wire)) [ inl t ↦ rw t h | inr t ↦ rw t h ];
  }

  send_to_peer-Keeps : (wire : List ℕ) → Keeps LockedKeyed (send_to_peer env wire)
  unfolding send_to_peer
  send_to_peer-Keeps wire = record {
    kept_at = λ l h. (h.0, (send-Keeps l.sess.transport wire).kept_at l.server h.1);
  }

  remember-IsKeyed :
      (pid : Option ℕ) (encoded : List ℕ) (sess : Session Conn)
      → IsKeyed sess
      → IsKeyed (remember env pid encoded sess)
  unfolding record_sent
  remember-IsKeyed none encoded sess h = h
  remember-IsKeyed (some p) encoded sess h = h

  pub send_and_track-Keeps : (pkt : ControlPacket) → Keeps LockedKeyed (send_and_track env pkt)
  unfolding send_and_track
  send_and_track-Keeps pkt =
      let encoded : List ℕ = encode env.bytes pkt in
      bind-Keeps LockedKeyed (wrap_for_wire env encoded) _ (wrap_for_wire-Keeps encoded) λ wire.
        then-Keeps LockedKeyed (send_to_peer env wire) _ (send_to_peer-Keeps wire) (
          set_session-Keeps (remember env pkt.packet_id encoded)
            (remember-IsKeyed pkt.packet_id encoded))

  pub send_chunks-Keeps :
      (key_id : ℕ) (parts : List (List ℕ)) → Keeps LockedKeyed (send_chunks env key_id parts)
  unfolding send_chunks make_control
  send_chunks-Keeps key_id parts = for_each-Keeps LockedKeyed parts _ λ chunk.
      bind-Keeps LockedKeyed (on_session (λ s. make_control s key_id chunk)) (send_and_track env)
        (on_session-Keeps (λ s. make_control s key_id chunk) (λ s h. h)) send_and_track-Keeps

  flush_acks-Keeps : Keeps LockedKeyed (flush_acks env)
  unfolding flush_acks
  flush_acks-Keeps = get-Keeps LockedKeyed _ λ l.
      then-Keeps LockedKeyed (set_session (λ s. record s { pending_acks = [] })) _
        (set_session-Keeps _ (λ s hs. hs))
        (bind-Keeps LockedKeyed (wrap_for_wire env _) (send_to_peer env) (wrap_for_wire-Keeps _)
          send_to_peer-Keeps)

  pub flush_outgoing-Keeps : Keeps LockedKeyed (flush_outgoing env)
  unfolding flush_outgoing take_outgoing
  flush_outgoing-Keeps =
      bind-Keeps LockedKeyed
        (on_session (λ s. let r = take_outgoing env.rustls s.tls in (record s { tls = r.1 }, r.0)))
        _ (record { kept_at = λ l h. h })
        λ out. get-Keeps LockedKeyed _ λ l.
          if-Keeps LockedKeyed (not (is_empty out)) _ _
            (send_chunks-Keeps (key_id_or_zero (active_slot l.sess))
              (chunks (length out) max_tls_payload_per_control out))
            (when-Keeps LockedKeyed (not (is_empty l.sess.pending_acks)) (flush_acks env)
              flush_acks-Keeps)
