-- ===== src/Session/Tests.antt =====
-- The theorems on sessions at concrete ones.
use just_another_vpn_server.Prelude.{
  ℕ, ◌+◌, ◌≤◌, ◌≡◌, refl, true, List, [], ◌∷◌, ◌++◌, none, some, arith, replicate, length, ok, take,
}
use just_another_vpn_server.Prelude.Bytes.{buf, buf-IsBuf, to_be}
use just_another_vpn_server.Primitives.{toy, toy-IsPrimitives}
use just_another_vpn_server.Protocol.{
  parse_data, DataPacketV2, to_u8, control_v1, control_soft_reset_v1, control_hard_reset_server_v2,
  ack_v1,
}
use just_another_vpn_server.Crypto.{DataCipher, seal, open_wire}
use just_another_vpn_server.Crypto.Seal.{mirror}
use just_another_vpn_server.Replay
use just_another_vpn_server.Replay.{verdicts}
use just_another_vpn_server.Prf.{derive_openvpn_key_data}
use just_another_vpn_server.Session
use just_another_vpn_server.Session.{TlsSession, udp, KeySlot, Unacked}
use just_another_vpn_server.Session.Control.{
  process_acks, record_sent, bump, stale_unacked, make_control, make_hard_reset_reply,
  make_soft_reset_reply, make_soft_reset_init, make_ack,
}
use just_another_vpn_server.Session.Slots.{
  install_slot, promote_slot, install_prf_slot, seal_packet, packet_header,
}
use just_another_vpn_server.Session.Acks.{
  acknowledge_all, acknowledge_all-outstanding, process_acks-record_sent, receive_all,
  receive_all-first_arrivals,
}
use just_another_vpn_server.Session.Retransmit.{stale_unacked-is_due, resent, resent_bounded}
use just_another_vpn_server.Session.Packets.{
  IsReady, Reads, IsNext, make_control-parse, resets-parse,
}
use just_another_vpn_server.Session.ReplayIds.{handed_out, handed_out-accepted}
use just_another_vpn_server.Session.Rekey.{
  Rekeys, install_slot-promote_slot, install_prf_slot-IsInstalled, IsFresh, IsInstalled,
}
use just_another_vpn_server.Session.Data.{seal_packet-opens}

abbrev S : Type 0
S = Session.Session ℕ

abbrev blank : S
blank = Session.new 42 (record { conn = 0; plaintext_in = [] }) 5 (udp 9) [] [] 100

abbrev busy : S
busy = record blank {
  pending_acks = 3 ∷ 4 ∷ [];
  received_pids = 4 ∷ 3 ∷ [];
  unacked =
      record { packet_id = 0; encoded = 1 ∷ []; sent_at = 100; attempts = 1 }
      ∷ record { packet_id = 1; encoded = 2 ∷ []; sent_at = 100; attempts = 5 }
      ∷ [];
}

abbrev a_cipher : DataCipher
a_cipher = record {
  enc_key = replicate 32 1;
  dec_key = replicate 32 2;
  enc_iv = replicate 8 3;
  dec_iv = replicate 8 4;
}

abbrev slot_of : ℕ → KeySlot
slot_of key_id = record {
  key_id = key_id;
  cipher = a_cipher;
  data_pid_out = 1;
  replay = Replay.new;
}

abbrev live : S
live = record busy { slot1 = some (slot_of 3); active_slot_idx = 1 }

acknowledge_all-outstanding_example :
    acknowledge_all busy ((0 ∷ 7 ∷ []) ∷ [] ∷ (9 ∷ []) ∷ []) ≡ record busy {
      unacked = record { packet_id = 1; encoded = 2 ∷ []; sent_at = 100; attempts = 5 } ∷ [];
    }
acknowledge_all-outstanding_example =
    acknowledge_all-outstanding busy ((0 ∷ 7 ∷ []) ∷ [] ∷ (9 ∷ []) ∷ [])

process_acks-record_sent_example :
    process_acks (record_sent busy 2 (8 ∷ []) 200) (2 ∷ []) ≡ process_acks busy (2 ∷ [])
process_acks-record_sent_example = process_acks-record_sent busy 2 (8 ∷ []) 200 (2 ∷ []) refl

receive_all-first_arrivals_example :
    (receive_all busy ((5, 1) ∷ (4, 2) ∷ (5, 3) ∷ (6, 4) ∷ [])).pending_acks ≡ 3 ∷ 4 ∷ 5 ∷ 6 ∷ []
receive_all-first_arrivals_example =
    receive_all-first_arrivals busy ((5, 1) ∷ (4, 2) ∷ (5, 3) ∷ (6, 4) ∷ [])

stale_unacked-is_due_example : (stale_unacked busy 2100 2000).1 ≡ (1 ∷ []) ∷ []
stale_unacked-is_due_example = stale_unacked-is_due busy 2100 2000

resent_bounded_example : length (resent busy 2000 (2100 ∷ 9000 ∷ 99000 ∷ [])) ≤ 10
resent_bounded_example = resent_bounded busy 2000 (2100 ∷ 9000 ∷ 99000 ∷ []) (omega arith)

-- A packet that is never acknowledged is sent again five times, and then no more.
resent_run :
    length (
      resent
        (record busy {
          unacked = record { packet_id = 0; encoded = 1 ∷ []; sent_at = 0; attempts = 1 } ∷ [];
        })
        2000
        (100000 ∷ 200000 ∷ 300000 ∷ 400000 ∷ 500000 ∷ 600000 ∷ 700000 ∷ []))
    ≡ 5
unfolding stale_unacked bump
resent_run = refl

busy-IsReady : IsReady busy
busy-IsReady = record {
  own_id = omega arith;
  peers_id = omega arith;
  next_id = omega arith;
  pending = omega arith;
  few_pending = omega arith;
}

make_control-parse_example :
    let (s1, p) = make_control busy 1 (0x16 ∷ 0x03 ∷ []) in
    Reads buf busy p control_v1 1 (3 ∷ 4 ∷ []) (some 0) (0x16 ∷ 0x03 ∷ [])
    × IsNext busy s1
    × (s1.pending_acks ≡ [])
    × IsReady s1
make_control-parse_example =
    make_control-parse buf-IsBuf busy 1 (0x16 ∷ 0x03 ∷ []) busy-IsReady (omega arith)

resets-parse_example :
    let (s1, hard) = make_hard_reset_reply busy 6 in
    let (s2, reply) = make_soft_reset_reply busy 2 6 in
    let (s3, init) = make_soft_reset_init busy 2 in
    Reads buf busy hard control_hard_reset_server_v2 0 (6 ∷ []) (some 0) []
    × Reads buf busy reply control_soft_reset_v1 2 (6 ∷ []) (some 0) []
    × Reads buf busy init control_soft_reset_v1 2 [] (some 0) []
    × Reads buf busy (make_ack busy 2 (7 ∷ [])) ack_v1 2 (7 ∷ []) none []
    × IsNext busy s1
    × IsNext busy s2
    × IsNext busy s3
resets-parse_example =
    resets-parse buf-IsBuf busy 2 6 (7 ∷ []) busy-IsReady (omega arith) (omega arith) (omega arith)
      (omega arith) (omega arith)

handed_out-accepted_example : verdicts Replay.new (handed_out 3 busy) ≡ true ∷ true ∷ true ∷ []
handed_out-accepted_example = handed_out-accepted Replay.new 3 busy (omega arith) (omega arith)

install_slot-promote_slot_example :
    let s1 = install_slot live (slot_of 4) in
    Rekeys live s1 (promote_slot s1 4) (slot_of 3) (slot_of 4)
install_slot-promote_slot_example =
    install_slot-promote_slot live (slot_of 3) (slot_of 4) (λ e. omega arith) (omega arith) refl

abbrev ready_for_keys : S
ready_for_keys = record blank {
  client_pre_master = some (replicate 48 1);
  client_random1 = some [];
  client_random2 = some [];
}

-- The first keys of a session, and new ones beside those with the key id 3.
install_prf_slot-IsInstalled_example :
    (s1 : S) × (slot : KeySlot) × (install_prf_slot toy ready_for_keys 0 ≡ ok s1)
    × IsFresh slot 0
        (derive_openvpn_key_data toy (replicate 48 1) [] [] [] [] (to_be 8 0) (to_be 8 42))
    × IsInstalled none s1 slot
install_prf_slot-IsInstalled_example =
    install_prf_slot-IsInstalled toy ready_for_keys 0 (replicate 48 1) [] [] refl refl refl
      (omega arith) (λ old e. let bad : none ≡ some old = e in cc)

abbrev sealed : List ℕ
sealed = (0x4b ∷ 0 ∷ 0 ∷ 5 ∷ 0 ∷ 0 ∷ 0 ∷ 1 ∷ []) ++ (replicate 16 0 ++ 0x45 ∷ 7 ∷ [])

seal_run : seal_packet toy (slot_of 3) 5 (0x45 ∷ 7 ∷ []) ≡ ok sealed
unfolding seal_packet packet_header seal to_u8 to_be
seal_run = refl

seal_packet-opens_example :
    (dp : DataPacketV2) × (parse_data sealed ≡ ok dp)
    × (dp.key_id ≡ 3)
    × (dp.peer_id ≡ 5)
    × (dp.packet_id ≡ 1)
    × (open_wire toy (mirror a_cipher) dp.packet_id (take 8 sealed) dp.ciphertext
        ≡ ok (0x45 ∷ 7 ∷ []))
    × (length sealed ≡ 2 + 24)
seal_packet-opens_example =
    seal_packet-opens toy-IsPrimitives (slot_of 3) 5 (0x45 ∷ 7 ∷ []) sealed
      (omega arith, omega arith) (omega arith) seal_run
