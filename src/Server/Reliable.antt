-- ===== src/Server/Reliable.antt =====
-- src/server.rs: `flush_outgoing`, the TLS bytes in fragments and what the session keeps of them.
use just_another_vpn_server.Prelude.{
  ℕ, zero, suc, ◌+◌, ◌%◌, ◌^◌, ◌≤◌, ◌≡◌, refl, sym, ap, ap₂, ◌∙◌, false, Option, none, some, List,
  [], ◌∷◌, ◌++◌, arith, take, drop, length, map, All, is_empty, Result, ok, take-append-drop,
  length-drop, length-take,
}
use mathlib.Core.List.{append_assoc, append-nil}
use just_another_vpn_server.Prelude.Steps.{continue_with-ok, continue_with-lift}
use just_another_vpn_server.Protocol.{ControlPacket, encode}
use just_another_vpn_server.TlsCrypt.{TlsCryptKey}
use just_another_vpn_server.TlsAuth.{TlsAuthKey}
use just_another_vpn_server.Session.{Session, TlsSession, Unacked, Transport}
use just_another_vpn_server.Session.Control.{make_control, next_tls_auth_pid, record_sent}
use just_another_vpn_server.Session.Slots.{active_slot}
use just_another_vpn_server.Server.{Env, VpnServer, Locked}
use just_another_vpn_server.Server.Tls.{take_outgoing}
use just_another_vpn_server.Server.Wire.{
  chunks, wrap_with, wrap_for_wire, send, send_to_peer, send_and_track, send_chunks, remember,
  flush_outgoing, key_id_or_zero,
}
use just_another_vpn_server.Server.Sending.{send-sent}

abbrev pub concat : List (List ℕ) → List ℕ
concat [] = []
concat (p ∷ ps) = p ++ concat ps

abbrev pub IsFragment : ℕ → List ℕ → Type 0
IsFragment size p = (1 ≤ length p) × (length p ≤ size)

-- The fragments of the TLS bytes put together are the bytes again, and each is neither empty nor
-- longer than the size asked for.
chunks-concat :
    (fuel size : ℕ) (bs : List ℕ)
    → 1 ≤ size
    → length bs ≤ fuel
    → (concat (chunks fuel size bs) ≡ bs) × All (IsFragment size) (chunks fuel size bs)
unfolding chunks
chunks-concat zero size [] h hf = (refl, tt)
chunks-concat zero size (b ∷ bs) h hf = absurd (omega arith)
chunks-concat (suc fuel) size [] h hf = (refl, tt)
chunks-concat (suc fuel) size (b ∷ bs) h hf =
    let rest : List ℕ = drop size (b ∷ bs) in
    let (whole, parts) =
      chunks-concat fuel size rest h (omega (arith, length-drop size (b ∷ bs))) in
    (
      ap (◌++◌ (take size (b ∷ bs))) whole ∙ take-append-drop size (b ∷ bs),
      ((omega (arith, length-take size (b ∷ bs)), omega (arith, length-take size (b ∷ bs))), parts),
    )

-- The packet ids that the session gives out from `n` on.
abbrev pub ids_from : ℕ → ℕ → List (Option ℕ)
ids_from n zero = []
ids_from n (suc k) = some n ∷ ids_from ((n + 1) % 2 ^ 32) k

abbrev pub id_or_zero : Option ℕ → ℕ
id_or_zero none = 0
id_or_zero (some n) = n

-- The first packet acknowledges what was pending, the others nothing, and nothing is pending behind
-- them; without a packet it is still pending.
abbrev pub AcksFirst : List ControlPacket → List ℕ → List ℕ → Type 0
AcksFirst [] before later = later ≡ before
AcksFirst (p ∷ packets) before later =
    (p.acks ≡ before) × All (λ (q : ControlPacket). q.acks ≡ []) packets × (later ≡ [])

no_more_acks :
    (packets : List ControlPacket) (before later : List ℕ)
    → before ≡ []
    → AcksFirst packets before later
    → All (λ (q : ControlPacket). q.acks ≡ []) packets × (later ≡ [])
no_more_acks [] before later e h = (tt, h ∙ e)
no_more_acks (p ∷ packets) before later e (first, others, none_left) =
    ((first ∙ e, others), none_left)

module _ {Conn : Type 0} (env : Env Conn) where
  -- The entry of a packet in the queue of the retransmission timer.
  abbrev pub entry : ControlPacket → Unacked
  entry p = record {
    packet_id = id_or_zero p.packet_id;
    encoded = encode env.bytes p;
    sent_at = env.now;
    attempts = 1;
  }

  -- The packets carry the parts under this key id, one each, with the session's next packet ids. All
  -- of them stand in the queue of the retransmission timer, and as many packets went to the session's
  -- peer.
  pub record IsCarried (l l' : Locked Conn) (key_id : ℕ) (parts : List (List ℕ))
      (packets : List ControlPacket) : Type 0 where
    pub payloads : map (λ (p : ControlPacket). p.payload) packets ≡ parts
    pub ids :
        map (λ (p : ControlPacket). p.packet_id) packets
        ≡ ids_from l.sess.next_packet_id (length parts)
    pub keys : All (λ (p : ControlPacket). p.key_id ≡ key_id) packets
    pub acks : AcksFirst packets l.sess.pending_acks l'.sess.pending_acks
    pub kept : l'.sess.unacked ≡ l.sess.unacked ++ map entry packets
    pub wires : List (List ℕ)
    pub count : length wires ≡ length parts
    pub sent : l'.server.sent ≡ l.server.sent ++ map (λ w. (l.sess.transport, w)) wires

  wrap_with-session :
      (tc : Option TlsCryptKey) (ta : Option TlsAuthKey) (inner : List ℕ) (s : Session Conn)
      → (pid : ℕ) × ((wrap_with env tc ta inner s).1 ≡ record s { tls_auth_pid_out = pid })
  unfolding wrap_with next_tls_auth_pid
  wrap_with-session (some tc) ta inner s = (_, refl)
  wrap_with-session none (some ta) inner s = (_, refl)
  wrap_with-session none none inner s = (s.tls_auth_pid_out, refl)

  -- What a successful `send_and_track` changes of the session, and what it sends.
  abbrev Tracked : Locked Conn → Locked Conn → ControlPacket → Type 0
  Tracked l l' pkt =
      (pid : ℕ) × (wire : List ℕ) × (l'.sess
        ≡ record l.sess { tls_auth_pid_out = pid; unacked = l.sess.unacked ++ entry pkt ∷ [] })
      × (l'.server.sent ≡ l.server.sent ++ (l.sess.transport, wire) ∷ [])

  send_and_track-Tracked :
      (l l' : Locked Conn) (pkt : ControlPacket) (n : ℕ)
      → pkt.packet_id ≡ some n
      → send_and_track env pkt l ≡ (ok tt, l')
      → Tracked l l' pkt
  unfolding send_and_track wrap_for_wire send_to_peer record_sent
  send_and_track-Tracked l l' pkt n ep h =
      let inner : List ℕ = encode env.bytes pkt in
      let w : Result (List ℕ) × Session Conn =
        wrap_with env l.server.tls_crypt l.server.tls_auth inner l.sess in
      let (pid, same) = wrap_with-session l.server.tls_crypt l.server.tls_auth inner l.sess in
      let l1 : Locked Conn = record l { sess = w.1 } in
      let (wire, made, h1) = continue_with-lift w.0 l1 _ h in
      let r : Result (Unit {0}) × VpnServer Conn = send env w.1.transport wire l.server in
      let l2 : Locked Conn = record l1 { server = r.1 } in
      let (u, went, h2) = continue_with-lift r.0 l2 _ h1 in
      let after : Option ℕ → Session Conn = λ o. record l.sess {
        tls_auth_pid_out = pid;
        unacked =
            l.sess.unacked
            ++ record { packet_id = id_or_zero o; encoded = inner; sent_at = env.now; attempts = 1 }
              ∷ [];
      } in
      (
        pid,
        wire,
        ap (λ x. x.1.sess) (sym h2)
            ∙ ap (λ o. remember env o inner w.1) ep
            ∙ ap (remember env (some n) inner) same
            ∙ ap after (sym ep),
        ap (λ x. x.1.server.sent) (sym h2)
            ∙ send-sent env w.1.transport wire l.server r.1 (ap (λ x. (x, r.1)) went)
            ∙ ap (λ (s : Session Conn). l.server.sent ++ (s.transport, wire) ∷ []) same,
      )

  send_chunks-IsCarried :
      (key_id : ℕ) (parts : List (List ℕ)) (l l' : Locked Conn)
      → send_chunks env key_id parts l ≡ (ok tt, l')
      → (packets : List ControlPacket) × IsCarried l l' key_id parts packets
  unfolding send_chunks make_control
  send_chunks-IsCarried key_id [] l l' h =
      let same : l ≡ l' = ap (λ r. r.1) h in
      (
        [],
        record {
          payloads = refl;
          ids = refl;
          keys = tt;
          acks = ap (λ x. x.sess.pending_acks) (sym same);
          kept = ap (λ x. x.sess.unacked) (sym same) ∙ sym (append-nil l.sess.unacked);
          wires = [];
          count = refl;
          sent = ap (λ x. x.server.sent) (sym same) ∙ sym (append-nil l.server.sent);
        },
      )
  send_chunks-IsCarried key_id (part ∷ parts) l l' h =
      let made : Session Conn × ControlPacket = make_control l.sess key_id part in
      let p : ControlPacket = made.1 in
      let l1 : Locked Conn = record l { sess = made.0 } in
      let (u, l2, went, h1) = continue_with-ok (send_and_track env p l1) _ h in
      let (pid, wire, sess, on_wire) =
        send_and_track-Tracked l1 l2 p l.sess.next_packet_id refl went in
      let (packets, more) = send_chunks-IsCarried key_id parts l2 l' h1 in
      (
        p ∷ packets,
        record {
          payloads = ap (◌∷◌ part) more.payloads;
          ids =
              ap (◌∷◌ (some l.sess.next_packet_id)) (
                more.ids
                ∙ ap (λ (s : Session Conn). ids_from s.next_packet_id (length parts)) sess);
          keys = (refl, more.keys);
          acks =
              let (others, none_left) =
                no_more_acks packets l2.sess.pending_acks l'.sess.pending_acks
                  (ap (λ (s : Session Conn). s.pending_acks) sess) more.acks in
              (refl, others, none_left);
          kept =
              more.kept
              ∙ ap (λ (s : Session Conn). s.unacked ++ map entry packets) sess
              ∙ append_assoc l.sess.unacked (entry p ∷ []) (map entry packets);
          wires = wire ∷ more.wires;
          count = ap suc more.count;
          sent =
              more.sent
              ∙ ap₂
                  (λ (log : List (Transport × List ℕ)) (s : Session Conn).
                    log ++ map (λ w. (s.transport, w)) more.wires)
                  on_wire sess
              ∙ append_assoc l.server.sent ((l.sess.transport, wire) ∷ []) _;
        },
      )

  -- Where TLS bytes are outgoing and `flush_outgoing` succeeds: the bytes are cut into fragments that
  -- give them back when they are put together, none of which is empty or longer than 1100 bytes.
  -- Packets with the key id of the active slot carry them, one each, under the session's next packet
  -- ids; the first one acknowledges what was pending, and nothing is pending behind them. As many
  -- packets went to the session's peer, and all of the control packets stand, in their order, behind
  -- what was in the queue of the retransmission timer.
  pub flush_outgoing-IsCarried :
      (l l' : Locked Conn)
      → is_empty (take_outgoing env.rustls l.sess.tls).0 ≡ false
      → flush_outgoing env l ≡ (ok tt, l')
      → (parts : List (List ℕ)) × (packets : List ControlPacket) × (concat parts
          ≡ (take_outgoing env.rustls l.sess.tls).0)
        × All (IsFragment 1100) parts
        × IsCarried l l' (key_id_or_zero (active_slot l.sess)) parts packets
  unfolding flush_outgoing
  flush_outgoing-IsCarried l l' some_bytes h =
      let r : List ℕ × TlsSession Conn = take_outgoing env.rustls l.sess.tls in
      let l1 : Locked Conn = record l { sess = record l.sess { tls = r.1 } } in
      let parts : List (List ℕ) = chunks (length r.0) 1100 r.0 in
      let key_id : ℕ = key_id_or_zero (active_slot l.sess) in
      let run : send_chunks env key_id parts l1 ≡ (ok tt, l') = rw some_bytes at h in
      let (whole, sized) = chunks-concat (length r.0) 1100 r.0 (omega arith) (omega arith) in
      let (packets, carried) = send_chunks-IsCarried key_id parts l1 l' run in
      (
        parts,
        packets,
        whole,
        sized,
        record {
          payloads = carried.payloads;
          ids = carried.ids;
          keys = carried.keys;
          acks = carried.acks;
          kept = carried.kept;
          wires = carried.wires;
          count = carried.count;
          sent = carried.sent;
        },
      )
