-- ===== src/Session/Control.antt =====
-- src/session.rs: the reliability layer of the control channel and the packets it makes.
use just_another_vpn_server.Prelude.{
  ℕ, ◌+◌, ◌-◌, ◌*◌, ◌%◌, ◌^◌, min, not, List, [], ◌∷◌, ◌++◌, none, some, ltb, leb, if◌then◌else◌,
  contains, retain, is_empty,
}
use just_another_vpn_server.Protocol.{
  ControlPacket, control_hard_reset_server_v2, control_soft_reset_v1, ack_v1, control_v1,
}
use just_another_vpn_server.Session.{Session, Unacked, control_max_attempts}

-- The loop of `stale_unacked`: the entries after it, and the packets to send again.
unfoldable pub bump : ℕ → ℕ → List Unacked → List Unacked × List (List ℕ)
bump now base_rto [] = ([], [])
bump now base_rto (u ∷ us) =
    let shift = min (u.attempts - 1) 5 in
    let backoff = base_rto * 2 ^ shift in
    let rest = bump now base_rto us in
    if leb backoff (now - u.sent_at)
    then (
      record u { sent_at = now; attempts = min (u.attempts + 1) (2 ^ 32 - 1) } ∷ rest.0,
      u.encoded ∷ rest.1,
    )
    else (u ∷ rest.0, rest.1)

module _ {Conn : Type 0} where
  unfoldable pub record_sent : Session Conn → ℕ → List ℕ → ℕ → Session Conn
  record_sent self packet_id encoded now = record self {
    unacked =
        self.unacked
        ++ record { packet_id = packet_id; encoded = encoded; sent_at = now; attempts = 1 } ∷ [];
  }

  unfoldable pub process_acks : Session Conn → List ℕ → Session Conn
  process_acks self acks =
      if is_empty acks
      then self
      else record self { unacked = retain (λ u. not (contains acks u.packet_id)) self.unacked }

  unfoldable pub stale_unacked : Session Conn → ℕ → ℕ → Session Conn × List (List ℕ)
  stale_unacked self now base_rto =
      let live = retain (λ u. ltb u.attempts control_max_attempts) self.unacked in
      let (entries, out) = bump now base_rto live in (record self { unacked = entries }, out)

  abbrev pub alloc_packet_id : Session Conn → Session Conn × ℕ
  alloc_packet_id self =
      (record self { next_packet_id = (self.next_packet_id + 1) % 2 ^ 32 }, self.next_packet_id)

  unfoldable pub make_hard_reset_reply : Session Conn → ℕ → Session Conn × ControlPacket
  make_hard_reset_reply self ack_pid =
      let (self1, pid) = alloc_packet_id self in
      (
        self1,
        record {
          op = control_hard_reset_server_v2;
          key_id = 0;
          session_id = self1.server_session_id;
          acks = ack_pid ∷ [];
          remote_session_id = some self1.client_session_id;
          packet_id = some pid;
          payload = [];
        },
      )

  unfoldable pub make_soft_reset_reply : Session Conn → ℕ → ℕ → Session Conn × ControlPacket
  make_soft_reset_reply self new_key_id ack_pid =
      let (self1, pid) = alloc_packet_id self in
      (
        self1,
        record {
          op = control_soft_reset_v1;
          key_id = new_key_id;
          session_id = self1.server_session_id;
          acks = ack_pid ∷ [];
          remote_session_id = some self1.client_session_id;
          packet_id = some pid;
          payload = [];
        },
      )

  unfoldable pub make_soft_reset_init : Session Conn → ℕ → Session Conn × ControlPacket
  make_soft_reset_init self new_key_id =
      let (self1, pid) = alloc_packet_id self in
      (
        self1,
        record {
          op = control_soft_reset_v1;
          key_id = new_key_id;
          session_id = self1.server_session_id;
          acks = [];
          remote_session_id = none;
          packet_id = some pid;
          payload = [];
        },
      )

  unfoldable pub make_ack : Session Conn → ℕ → List ℕ → ControlPacket
  make_ack self key_id pids = record {
    op = ack_v1;
    key_id = key_id;
    session_id = self.server_session_id;
    acks = pids;
    remote_session_id = some self.client_session_id;
    packet_id = none;
    payload = [];
  }

  unfoldable pub make_control : Session Conn → ℕ → List ℕ → Session Conn × ControlPacket
  make_control self key_id tls_payload =
      let (self1, pid) = alloc_packet_id self in
      let acks = self1.pending_acks in
      let self2 = record self1 { pending_acks = [] } in
      let remote = if not (is_empty acks) then some self2.client_session_id else none in
      (
        self2,
        record {
          op = control_v1;
          key_id = key_id;
          session_id = self2.server_session_id;
          acks = acks;
          remote_session_id = remote;
          packet_id = some pid;
          payload = tls_payload;
        },
      )

  unfoldable pub next_tls_auth_pid : Session Conn → Session Conn × ℕ
  next_tls_auth_pid self =
      let p = self.tls_auth_pid_out in
      let next = if ltb (p + 1) (2 ^ 32) then p + 1 else 1 in
      (record self { tls_auth_pid_out = next }, p)

  unfoldable pub note_received : Session Conn → ℕ → ℕ → Session Conn
  note_received self pid now =
      if contains self.received_pids pid then record self { last_seen = now } else record self {
        received_pids = pid ∷ self.received_pids;
        pending_acks = self.pending_acks ++ pid ∷ [];
        last_seen = now;
      }
