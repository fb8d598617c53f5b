-- ===== src/Server/Wire.antt =====
-- src/server.rs: from a control packet to the wire and back, and the sending side of a session.
use just_another_vpn_server.Prelude.{
  ℕ, zero, suc, not, List, [], ◌∷◌, ◌++◌, Option, none, some, take, drop, length, is_empty,
  if◌then◌else◌, Result, ok, err, Error,
}
use just_another_vpn_server.Prelude.Steps.{Step, ◌>>=◌, ◌>>◌, get, when, for_each}
use just_another_vpn_server.Protocol.{ControlPacket, encode}
use just_another_vpn_server.TlsAuth
use just_another_vpn_server.TlsAuth.{TlsAuthKey}
use just_another_vpn_server.TlsCrypt
use just_another_vpn_server.TlsCrypt.{TlsCryptKey}
use just_another_vpn_server.Session.{
  Session, KeySlot, TlsSession, Transport, max_tls_payload_per_control,
}
use just_another_vpn_server.Session.Control.{next_tls_auth_pid, record_sent, make_control, make_ack}
use just_another_vpn_server.Session.Slots.{active_slot}
use just_another_vpn_server.Server.{Env, VpnServer, Locked}
use just_another_vpn_server.Server.Tls.{take_outgoing}
use Error.{send_failed}

-- `slice.chunks(size)`; the length of the slice is fuel enough.
unfoldable pub chunks : ℕ → ℕ → List ℕ → List (List ℕ)
chunks zero size bs = []
chunks (suc fuel) size bs =
    let rest = chunks fuel size (drop size bs) in if is_empty bs then [] else take size bs ∷ rest

-- `Ok((Some(inner), Some(pid)))` after a `?`.
abbrev pub in_envelope : Result (List ℕ × ℕ) → Result (Option (List ℕ) × Option ℕ)
in_envelope (ok r) = ok (some r.0, some r.1)
in_envelope (err e) = err e

abbrev pub key_id_or_zero : Option KeySlot → ℕ
key_id_or_zero none = 0
key_id_or_zero (some s) = s.key_id

module _ {Conn : Type 0} where
  -- A step that reads or changes the locked session only.
  abbrev pub on_session : {A : Type 0} → (Session Conn → Session Conn × A) → Step (Locked Conn) A
  on_session f l = let r = f l.sess in (ok r.1, record l { sess = r.0 })

  abbrev pub set_session : (Session Conn → Session Conn) → Step (Locked Conn) (Unit {0})
  set_session f l = (ok tt, record l { sess = f l.sess })

  abbrev pub on_server : {A : Type 0} → Step (VpnServer Conn) A → Step (Locked Conn) A
  on_server m l = let r = m l.server in (r.0, record l { server = r.1 })

  -- A step on the main TLS connection of the session.
  abbrev pub on_tls : {A : Type 0} → Step (TlsSession Conn) A → Step (Locked Conn) A
  on_tls m l =
      let r = m l.sess.tls in
      let sess = record l.sess { tls = r.1 } in (r.0, record l { sess = sess })

module _ {Conn : Type 0} (env : Env Conn) where
  -- The envelope of an encoded packet: tls-crypt before tls-auth before none.
  unfoldable pub wrap_with :
      Option TlsCryptKey
      → Option TlsAuthKey
      → List ℕ
      → Session Conn
      → Result (List ℕ) × Session Conn
  wrap_with (some tc) tls_auth inner sess =
      let (sess1, pid) = next_tls_auth_pid sess in
      (TlsCrypt.wrap env.crypto tc inner pid env.unix_timestamp, sess1)
  wrap_with none (some ta) inner sess =
      let (sess1, pid) = next_tls_auth_pid sess in
      (TlsAuth.wrap env.crypto ta inner pid env.unix_timestamp, sess1)
  wrap_with none none inner sess = (ok inner, sess)

  unfoldable pub wrap_for_wire : List ℕ → Step (Locked Conn) (List ℕ)
  wrap_for_wire inner l =
      let r = wrap_with l.server.tls_crypt l.server.tls_auth inner l.sess in
      (r.0, record l { sess = r.1 })

  -- The inner packet and the replay id, where there is an envelope.
  unfoldable pub unwrap_with :
      Option TlsCryptKey → Option TlsAuthKey → List ℕ → Result (Option (List ℕ) × Option ℕ)
  unwrap_with (some tc) tls_auth pkt = in_envelope (TlsCrypt.unwrap env.crypto tc pkt)
  unwrap_with none (some ta) pkt = in_envelope (TlsAuth.unwrap env.crypto ta pkt)
  unwrap_with none none pkt = ok (none, none)

  unfoldable pub unwrap_control : VpnServer Conn → List ℕ → Result (Option (List ℕ) × Option ℕ)
  unwrap_control self pkt = unwrap_with self.tls_crypt self.tls_auth pkt

  -- `Transport::send`
  unfoldable pub send : Transport → List ℕ → Step (VpnServer Conn) (Unit {0})
  send to wire self =
      if env.accepts to wire
      then (ok tt, record self { sent = self.sent ++ (to, wire) ∷ [] })
      else (err send_failed, self)

  -- `sess.transport.send`
  unfoldable pub send_to_peer : List ℕ → Step (Locked Conn) (Unit {0})
  send_to_peer wire l = on_server (send l.sess.transport wire) l

  abbrev pub remember : Option ℕ → List ℕ → Session Conn → Session Conn
  remember none encoded sess = sess
  remember (some p) encoded sess = record_sent sess p encoded env.now

  unfoldable pub send_and_track : ControlPacket → Step (Locked Conn) (Unit {0})
  send_and_track pkt = do
    let pid = pkt.packet_id
    let encoded = encode env.bytes pkt
    wire ← wrap_for_wire encoded
    send_to_peer wire
    set_session (remember pid encoded)

  unfoldable pub send_chunks : ℕ → List (List ℕ) → Step (Locked Conn) (Unit {0})
  send_chunks key_id parts =
      for_each parts
        λ chunk. on_session (λ s. make_control s key_id chunk) >>= λ pkt. send_and_track pkt

  unfoldable pub flush_acks : Step (Locked Conn) (Unit {0})
  flush_acks = do
    l ← get
    let pids = l.sess.pending_acks
    set_session (λ s. record s { pending_acks = [] })
    let key_id = key_id_or_zero (active_slot l.sess)
    let ack = make_ack l.sess key_id pids
    wire ← wrap_for_wire (encode env.bytes ack)
    send_to_peer wire

  unfoldable pub flush_outgoing : Step (Locked Conn) (Unit {0})
  flush_outgoing = do
    out ← on_session (λ s. let r = take_outgoing env.rustls s.tls in (record s { tls = r.1 }, r.0))
    l ← get
    (if not (is_empty out)
        then send_chunks (key_id_or_zero (active_slot l.sess))
            (chunks (length out) max_tls_payload_per_control out)
        else when (not (is_empty l.sess.pending_acks)) flush_acks)
