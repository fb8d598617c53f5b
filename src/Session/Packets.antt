-- ===== src/Session/Packets.antt =====
-- src/session.rs: the control packets that a session makes, and what the peer reads from them.
use just_another_vpn_server.Prelude.{
  ℕ, ◌+◌, ◌%◌, ◌^◌, Option, ◌≤◌, ◌<◌, ◌≡◌, refl, not, List, [], ◌∷◌, none, some, arith,
  if◌then◌else◌, length, All, is_empty, ok,
}
use just_another_vpn_server.Prelude.Bytes.{Buf, IsBuf, IsU32, IsU64}
use just_another_vpn_server.Protocol.{
  ControlPacket, OpCode, parse, encode, control_v1, control_soft_reset_v1,
  control_hard_reset_server_v2, ack_v1,
}
use just_another_vpn_server.Protocol.Wire.{RemoteFits}
use just_another_vpn_server.Protocol.RoundTrip.{parse-encode}
use just_another_vpn_server.Session.{Session}
use just_another_vpn_server.Session.Control.{
  make_hard_reset_reply, make_soft_reset_reply, make_soft_reset_init, make_ack, make_control,
}

-- The ids of a session fit their widths, and fewer than 256 acknowledgements are pending.
pub record IsReady {Conn : Type 0} (s : Session Conn) : Type 0 where
  pub own_id : IsU64 s.server_session_id
  pub peers_id : IsU64 s.client_session_id
  pub next_id : IsU32 s.next_packet_id
  pub pending : All IsU32 s.pending_acks
  pub few_pending : length s.pending_acks < 256

remote_fits :
    (acks : List ℕ) (r : ℕ)
    → IsU64 r
    → RemoteFits acks (if not (is_empty acks) then some r else none)
remote_fits [] r h = tt
remote_fits (a ∷ acks) r h = h

-- What the peer reads from a packet of a session: the opcode and the key id, the session's own id,
-- the acknowledgements, with the peer's session id behind them if there are any, a packet id and
-- the TLS bytes.
abbrev pub Reads :
    {Conn : Type 0}
    → Buf
    → Session Conn
    → ControlPacket
    → OpCode
    → ℕ
    → List ℕ
    → Option ℕ
    → List ℕ
    → Type 0
Reads lib s p op key_id acks packet_id payload =
    parse lib (encode lib p)
    ≡ ok (record {
      op = op;
      key_id = key_id;
      session_id = s.server_session_id;
      acks = acks;
      remote_session_id = if not (is_empty acks) then some s.client_session_id else none;
      packet_id = packet_id;
      payload = payload;
    })

-- The session goes on to the next packet id.
abbrev pub IsNext : {Conn : Type 0} → Session Conn → Session Conn → Type 0
IsNext s s1 = s1.next_packet_id ≡ (s.next_packet_id + 1) % 2 ^ 32

module _ {Conn : Type 0} {lib : Buf} (laws : IsBuf lib) where
  -- From the control packet of a session that is ready the peer reads the key id, the session's id,
  -- the acknowledgements that were pending, with the peer's own session id if there are any, the
  -- session's next packet id and the TLS bytes. Afterwards the session goes on to the packet id
  -- behind it, nothing is pending and the session is ready again.
  pub make_control-parse :
      (s : Session Conn) (key_id : ℕ) (tls_payload : List ℕ)
      → IsReady s
      → key_id < 8
      → let (s1, p) = make_control s key_id tls_payload in
        Reads lib s p control_v1 key_id s.pending_acks (some s.next_packet_id) tls_payload
        × IsNext s s1
        × (s1.pending_acks ≡ [])
        × IsReady s1
  unfolding make_control
  make_control-parse s key_id tls_payload v hk = (
    parse-encode laws _ (record {
      control = refl;
      key = hk;
      session = v.own_id;
      few_acks = v.few_pending;
      acks_fit = v.pending;
      remote = remote_fits s.pending_acks s.client_session_id v.peers_id;
      pid = v.next_id;
    }),
    refl,
    refl,
    record {
      own_id = v.own_id;
      peers_id = v.peers_id;
      next_id = omega arith;
      pending = tt;
      few_pending = omega arith;
    },
  )

  -- From the other packets of a session that is ready the peer reads: from the two replies to a
  -- reset the acknowledgement of the packet that they answer, under key id 0 or the new key id; from
  -- the request for a rekey the new key id and no acknowledgement; from the pure acknowledgement the
  -- key id and all ids that it acknowledges, and no packet id. The first three have the session's
  -- next packet id, and the session goes on to the one behind it. The ids fit their widths and 1 to
  -- 255 ids are acknowledged.
  pub resets-parse :
      (s : Session Conn) (key_id ack_pid : ℕ) (pids : List ℕ)
      → IsReady s
      → key_id < 8
      → IsU32 ack_pid
      → All IsU32 pids
      → length pids < 256
      → 1 ≤ length pids
      → let (s1, hard) = make_hard_reset_reply s ack_pid in
        let (s2, reply) = make_soft_reset_reply s key_id ack_pid in
        let (s3, init) = make_soft_reset_init s key_id in
        let next = some s.next_packet_id in
        Reads lib s hard control_hard_reset_server_v2 0 (ack_pid ∷ []) next []
        × Reads lib s reply control_soft_reset_v1 key_id (ack_pid ∷ []) next []
        × Reads lib s init control_soft_reset_v1 key_id [] next []
        × Reads lib s (make_ack s key_id pids) ack_v1 key_id pids none []
        × IsNext s s1
        × IsNext s s2
        × IsNext s s3
  unfolding make_hard_reset_reply make_soft_reset_reply make_soft_reset_init make_ack
  resets-parse s key_id ack_pid [] v hk ha fits few some_pids = absurd (omega arith)
  resets-parse s key_id ack_pid (a ∷ pids) v hk ha fits few some_pids = (
    parse-encode laws _ (record {
      control = refl;
      key = omega arith;
      session = v.own_id;
      few_acks = omega arith;
      acks_fit = (ha, tt);
      remote = v.peers_id;
      pid = v.next_id;
    }),
    parse-encode laws _ (record {
      control = refl;
      key = hk;
      session = v.own_id;
      few_acks = omega arith;
      acks_fit = (ha, tt);
      remote = v.peers_id;
      pid = v.next_id;
    }),
    parse-encode laws _ (record {
      control = refl;
      key = hk;
      session = v.own_id;
      few_acks = omega arith;
      acks_fit = tt;
      remote = tt;
      pid = v.next_id;
    }),
    parse-encode laws _ (record {
      control = refl;
      key = hk;
      session = v.own_id;
      few_acks = few;
      acks_fit = fits;
      remote = v.peers_id;
      pid = tt;
    }),
    refl,
    refl,
    refl,
  )
