-- ===== src/Session.antt =====
-- src/session.rs: the state of one client. An `Instant` is a number of milliseconds and is an
-- argument where the source reads the clock, and so are random bytes. `Conn` is the rustls
-- connection of src/tls.rs.
pub mod Control
pub mod Slots
pub mod Acks
pub mod Retransmit
pub mod Packets
pub mod ReplayIds
pub mod Data
pub mod Rekey
mod Tests
use just_another_vpn_server.Prelude.{ℕ, Bool, false, List, [], Option, none, some}
use just_another_vpn_server.Crypto.{DataCipher}
use just_another_vpn_server.Replay.{ReplayWindow}
use just_another_vpn_server.Replay

abbrev pub max_tls_payload_per_control : ℕ
max_tls_payload_per_control = 1100

abbrev pub control_base_rto : ℕ
control_base_rto = 2000

abbrev pub control_max_attempts : ℕ
control_max_attempts = 6

-- src/transport.rs: a peer's UDP address, or the number of its TCP writer task.
pub data Transport : Type 0 where
  udp : ℕ → Transport
  tcp : ℕ → Transport

pub record Unacked : Type 0 where
  pub packet_id : ℕ
  pub encoded : List ℕ
  pub sent_at : ℕ
  pub attempts : ℕ

pub record KeySlot : Type 0 where
  pub key_id : ℕ
  pub cipher : DataCipher
  pub data_pid_out : ℕ
  pub replay : ReplayWindow

pub data RekeyState : Type 0 where
  rekey_handshaking rekey_key_exchange : RekeyState

pub data State : Type 0 where
  waiting_hard_reset handshaking key_exchange push_pending established closed : State

pub record TlsSession (Conn : Type 0) : Type 0 where
  pub conn : Conn
  pub plaintext_in : List ℕ

pub record RekeyTrack (Conn : Type 0) : Type 0 where
  pub key_id : ℕ
  pub tls : TlsSession Conn
  pub state : RekeyState
  pub server_random1 : List ℕ
  pub server_random2 : List ℕ
  pub key_method_sent : Bool

-- `slots` is the array of two, as two fields, and `active_slot_idx` is 0 or 1. The set
-- `received_pids` is a list without repetition.
pub record Session (Conn : Type 0) : Type 0 where
  pub server_session_id : ℕ
  pub client_session_id : ℕ
  pub state : State
  pub next_packet_id : ℕ
  pub pending_acks : List ℕ
  pub received_pids : List ℕ
  pub tls : TlsSession Conn
  pub assigned_ip : Option ℕ
  pub assigned_ip_v6 : Option ℕ
  pub peer_id : ℕ
  pub transport : Transport
  pub slot0 : Option KeySlot
  pub slot1 : Option KeySlot
  pub active_slot_idx : ℕ
  pub tls_auth_pid_out : ℕ
  pub tls_auth_replay : ReplayWindow
  pub client_random1 : Option (List ℕ)
  pub client_random2 : Option (List ℕ)
  pub client_pre_master : Option (List ℕ)
  pub server_random1 : List ℕ
  pub server_random2 : List ℕ
  pub client_options : Option (List ℕ)
  pub client_peer_info : Option (List ℕ)
  pub client_cn : Option (List ℕ)
  pub unacked : List Unacked
  pub rekey : Option (RekeyTrack Conn)
  pub last_rekey_at : ℕ
  pub last_seen : ℕ

module _ {Conn : Type 0} where
  abbrev pub new : ℕ → TlsSession Conn → ℕ → Transport → List ℕ → List ℕ → ℕ → Session Conn
  new server_session_id tls peer_id transport r1 r2 now = record {
    server_session_id = server_session_id;
    client_session_id = 0;
    state = waiting_hard_reset;
    next_packet_id = 0;
    pending_acks = [];
    received_pids = [];
    tls = tls;
    assigned_ip = none;
    assigned_ip_v6 = none;
    peer_id = peer_id;
    transport = transport;
    slot0 = none;
    slot1 = none;
    active_slot_idx = 0;
    tls_auth_pid_out = 1;
    tls_auth_replay = Replay.new;
    client_random1 = none;
    client_random2 = none;
    client_pre_master = none;
    server_random1 = r1;
    server_random2 = r2;
    client_options = none;
    client_peer_info = none;
    client_cn = none;
    unacked = [];
    rekey = none;
    last_rekey_at = now;
    last_seen = now;
  }

  unfoldable pub start_rekey : Session Conn → ℕ → TlsSession Conn → List ℕ → List ℕ → Session Conn
  start_rekey self new_key_id tls r1 r2 = record self {
    rekey = some (record {
      key_id = new_key_id;
      tls = tls;
      state = rekey_handshaking;
      server_random1 = r1;
      server_random2 = r2;
      key_method_sent = false;
    });
  }
