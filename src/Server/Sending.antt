-- ===== src/Server/Sending.antt =====
-- src/server.rs: `send_and_track`, and what the peer and the session have of a packet behind it.
use just_another_vpn_server.Prelude.{
  ℕ, ◌≤◌, ◌≡◌, refl, sym, ap, ◌∙◌, List, [], ◌∷◌, ◌++◌, Option, some, arith, length, Result, ok,
  err, Error, ◌>>=◌, Bool-cases, inl, inr, length-append,
}
use just_another_vpn_server.Prelude.Bytes.{IsBuf, IsU32, to_be, length-to_be}
use just_another_vpn_server.Prelude.Steps.{Step, continue_with}
use just_another_vpn_server.Primitives.{IsPrimitives}
use just_another_vpn_server.Protocol.{ControlPacket, encode}
use just_another_vpn_server.Protocol.Wire.{encode-wire, wire}
use just_another_vpn_server.TlsCrypt
use just_another_vpn_server.TlsCrypt.{TlsCryptKey}
use just_another_vpn_server.TlsAuth.{TlsAuthKey}
use Error.{send_failed}
use just_another_vpn_server.TlsCrypt.Envelope.{unwrap-wrap_crypt}
use just_another_vpn_server.Session.{Session, Unacked, Transport}
use just_another_vpn_server.Session.Control.{next_tls_auth_pid, record_sent}
use just_another_vpn_server.Server.{Env, VpnServer, Locked}
use just_another_vpn_server.Server.Wire.{
  wrap_with, wrap_for_wire, send, send_to_peer, send_and_track, remember,
}

-- A step that succeeds after another one.
continue-eq-ok :
    {S A B : Type 0} (x : Result A) (s : S) (f : A → Step S B) (b : B) (s' : S)
    → continue_with (x, s) f ≡ (ok b, s')
    → (a : A) × (x ≡ ok a) × (f a s ≡ (ok b, s'))
continue-eq-ok (ok a) s f b s' h = (a, refl, h)
continue-eq-ok (err e) s f b s' h = let no : err e ≡ ok b = ap (λ r. r.0) h in cc

module _ {Conn : Type 0} (env : Env Conn) where
  pub send-sent :
      (to : Transport) (packet : List ℕ) (self after : VpnServer Conn)
      → send env to packet self ≡ (ok tt, after)
      → after.sent ≡ self.sent ++ (to, packet) ∷ []
  unfolding send
  send-sent to packet self after h = elim (Bool-cases (env.accepts to packet)) [
    | inl t ↦
        let e : (ok tt, record self { sent = self.sent ++ (to, packet) ∷ [] }) ≡ (ok tt, after) =
          rw t at h in
        ap (λ r. r.1.sent) (sym e)
    | inr t ↦
        let e : (err send_failed, self) ≡ (ok tt, after) = rw t at h in
        let no : err send_failed ≡ ok tt = ap (λ r. r.0) e in cc
  ]

module _ {Conn : Type 0} (env : Env Conn) (bytes : IsBuf env.bytes)
    (laws : IsPrimitives env.crypto) where
  encode_long : (pkt : ControlPacket) → 9 ≤ length (encode env.bytes pkt)
  unfolding wire
  encode_long pkt =
      rw (encode-wire bytes pkt)
        (omega (arith, length-append (to_be 8 pkt.session_id) _, length-to_be 8 pkt.session_id))

  -- With a fresh envelope for each sending, the peer always gets the same inner packet.
  wrap_with-unwrap :
      (tc : TlsCryptKey) (o : Option TlsAuthKey) (inner packet : List ℕ) (sess : Session Conn)
      → 9 ≤ length inner
      → IsU32 sess.tls_auth_pid_out
      → (wrap_with env (some tc) o inner sess).0 ≡ ok packet
      → TlsCrypt.unwrap env.crypto (TlsCrypt.Envelope.mirror tc) packet
        ≡ ok (inner, sess.tls_auth_pid_out)
  unfolding wrap_with next_tls_auth_pid
  wrap_with-unwrap tc o inner packet sess h hp e =
      ap (λ r. r >>= TlsCrypt.unwrap env.crypto (TlsCrypt.Envelope.mirror tc)) (sym e)
      ∙ unwrap-wrap_crypt laws tc inner sess.tls_auth_pid_out env.unix_timestamp h hp

  wrap_with-keeps :
      (tc : TlsCryptKey) (o : Option TlsAuthKey) (inner : List ℕ) (sess : Session Conn)
      → ((wrap_with env (some tc) o inner sess).1.transport ≡ sess.transport)
        × ((wrap_with env (some tc) o inner sess).1.unacked ≡ sess.unacked)
  unfolding wrap_with next_tls_auth_pid
  wrap_with-keeps tc o inner sess = (refl, refl)

  -- What a successful `send_and_track` did for a packet with an id, under tls-crypt.
  pub record IsSentAs (l l' : Locked Conn) (tc : TlsCryptKey) (pkt : ControlPacket) (p : ℕ)
      : Type 0 where
    pub packet : List ℕ
    pub sent : l'.server.sent ≡ l.server.sent ++ (l.sess.transport, packet) ∷ []
    pub opens :
        TlsCrypt.unwrap env.crypto (TlsCrypt.Envelope.mirror tc) packet
        ≡ ok (encode env.bytes pkt, l.sess.tls_auth_pid_out)
    pub kept :
        l'.sess.unacked
        ≡ l.sess.unacked
          ++ record {
            packet_id = p;
            encoded = encode env.bytes pkt;
            sent_at = env.now;
            attempts = 1;
          }
            ∷ []

  -- When `send_and_track` succeeds under tls-crypt, exactly one packet went to the session's peer;
  -- the peer's keys open it to the encoding of the control packet under the session's next replay
  -- id; and that encoding, without its envelope, stands last in the queue of the retransmission
  -- timer with one attempt made.
  pub send_and_track-IsSentAs :
      (l l' : Locked Conn) (tc : TlsCryptKey) (pkt : ControlPacket) (p : ℕ)
      → l.server.tls_crypt ≡ some tc
      → pkt.packet_id ≡ some p
      → IsU32 l.sess.tls_auth_pid_out
      → send_and_track env pkt l ≡ (ok tt, l')
      → IsSentAs l l' tc pkt p
  unfolding send_and_track wrap_for_wire send_to_peer record_sent
  send_and_track-IsSentAs l l' tc pkt p e ep hp h =
      let inner : List ℕ = encode env.bytes pkt in
      let w : Result (List ℕ) × Session Conn =
        wrap_with env l.server.tls_crypt l.server.tls_auth inner l.sess in
      let l1 : Locked Conn = record l { sess = w.1 } in
      let (packet, made, h1) = continue-eq-ok w.0 l1 _ tt l' h in
      let r : Result (Unit {0}) × VpnServer Conn = send env w.1.transport packet l.server in
      let l2 : Locked Conn = record l1 { server = r.1 } in
      let (u, went, h2) = continue-eq-ok r.0 l2 _ tt l' h1 in
      let (same_peer, same_queue) = wrap_with-keeps tc l.server.tls_auth inner l.sess in
      let same_w : w ≡ wrap_with env (some tc) l.server.tls_auth inner l.sess =
        ap (λ o. wrap_with env o l.server.tls_auth inner l.sess) e in
      let entry : Unacked = record {
        packet_id = p;
        encoded = inner;
        sent_at = env.now;
        attempts = 1;
      } in
      record {
        packet = packet;
        sent =
            ap (λ t. t.server.sent) (ap (λ t. t.1) (sym h2))
            ∙ send-sent env w.1.transport packet l.server r.1 (ap (λ x. (x, r.1)) went)
            ∙ ap (λ to. l.server.sent ++ (to, packet) ∷ [])
                (ap (λ t. t.1.transport) same_w ∙ same_peer);
        opens =
            wrap_with-unwrap tc l.server.tls_auth inner packet l.sess (encode_long pkt) hp
              (sym (ap (λ t. t.0) same_w) ∙ made);
        kept =
            ap (λ t. t.sess.unacked) (ap (λ t. t.1) (sym h2))
            ∙ ap (λ o. (remember env o inner w.1).unacked) ep
            ∙ ap (λ us. us ++ entry ∷ []) (ap (λ t. t.1.unacked) same_w ∙ same_queue);
      }
