-- ===== src/Server/DataTests.antt =====
-- The theorems on data packets at concrete states.
use just_another_vpn_server.Prelude.{
  ℕ, ◌≡◌, refl, List, [], ◌∷◌, ◌++◌, some, arith, replicate, drop, take, ok, err, Error,
}
use just_another_vpn_server.Prelude.Bytes.{to_be, from_be}
use just_another_vpn_server.Primitives.{toy, toy-IsPrimitives}
use just_another_vpn_server.Replay
use just_another_vpn_server.Replay.{check_and_set}
use just_another_vpn_server.Replay.Window.{new-Represents}
use just_another_vpn_server.Protocol.{to_u8, parse_data, DataPacketV2}
use just_another_vpn_server.Crypto.{DataCipher, open_wire}
use just_another_vpn_server.Crypto.Seal.{mirror}
use just_another_vpn_server.Session.{KeySlot}
use just_another_vpn_server.Session.Slots.{slot_by_key_id}
use just_another_vpn_server.Server.Traffic.{open_with, decrypt}
use just_another_vpn_server.Server.Gate.{decrypt_all}
use just_another_vpn_server.Server.Once.{decrypt_forged, decrypt_once}
use just_another_vpn_server.Server.Delivery.{Paired, transfer, transfer-ok}
use just_another_vpn_server.Server.Fixtures.{S, blank}

abbrev a_cipher : DataCipher
a_cipher = record {
  enc_key = replicate 32 1;
  dec_key = replicate 32 2;
  enc_iv = replicate 8 3;
  dec_iv = replicate 8 4;
}

abbrev a_slot : KeySlot
a_slot = record { key_id = 3; cipher = a_cipher; data_pid_out = 1; replay = Replay.new }

abbrev peer_slot : KeySlot
peer_slot = record { key_id = 3; cipher = mirror a_cipher; data_pid_out = 1; replay = Replay.new }

abbrev sender : S
sender = record blank { slot0 = some a_slot }

abbrev receiver : S
receiver = record blank { slot1 = some peer_slot; active_slot_idx = 1 }

found_three : slot_by_key_id receiver 3 ≡ some 1
unfolding slot_by_key_id
found_three = refl

sender-Paired : Paired sender receiver
unfolding slot_by_key_id
sender-Paired = record {
  slot = a_slot;
  peer = peer_slot;
  idx = 1;
  sends = refl;
  fits = (omega arith, omega arith);
  peer_fits = omega arith;
  found = found_three;
  stands = refl;
  mirrored = refl;
  behind = omega arith;
}

transfer-ok_example :
    transfer toy 200 sender receiver ((0x45 ∷ []) ∷ (0x60 ∷ 1 ∷ []) ∷ [])
    ≡ ok (0x45 ∷ []) ∷ ok (0x60 ∷ 1 ∷ []) ∷ []
unfolding sender-Paired
transfer-ok_example =
    transfer-ok toy-IsPrimitives 200 sender receiver ((0x45 ∷ []) ∷ (0x60 ∷ 1 ∷ []) ∷ [])
      sender-Paired (λ key nonce aad msg. (_, refl)) (omega arith)

abbrev header : List ℕ
header = 0x4b ∷ 0 ∷ 0 ∷ 5 ∷ 0 ∷ 0 ∷ 0 ∷ 1 ∷ []

abbrev forged : List ℕ
forged = header ++ 1 ∷ 2 ∷ 3 ∷ []

abbrev genuine : List ℕ
genuine = header ++ (replicate 16 0 ++ 0x45 ∷ 7 ∷ [])

abbrev fields : List ℕ → DataPacketV2
fields body = record { key_id = 3; peer_id = 5; packet_id = 1; ciphertext = body }

forged-fields : parse_data forged ≡ ok (fields (drop 8 forged))
unfolding parse_data to_u8 from_be
forged-fields = refl

genuine-fields : parse_data genuine ≡ ok (fields (drop 8 genuine))
unfolding parse_data to_u8 from_be
genuine-fields = refl

forged_refused :
    open_wire toy (mirror a_cipher) 1 (take 8 forged) (drop 8 forged) ≡ err Error.short_ciphertext
unfolding open_wire
forged_refused = refl

decrypt_forged_example : decrypt toy 300 forged receiver ≡ (err Error.short_ciphertext, receiver)
decrypt_forged_example =
    decrypt_forged toy 300 receiver forged (fields (drop 8 forged)) 1 peer_slot
      Error.short_ciphertext (record { parsed = forged-fields; found = found_three; stands = refl })
      forged_refused

genuine_run : (decrypt toy 300 genuine receiver).0 ≡ ok (0x45 ∷ 7 ∷ [])
unfolding decrypt parse_data to_u8 from_be slot_by_key_id open_with open_wire to_be check_and_set
genuine_run = refl

decrypt_once_example :
    (decrypt toy 400 genuine
      (decrypt_all toy (decrypt toy 300 genuine receiver).1 ((310, forged) ∷ []))).0
    ≡ err Error.replay_rejected
decrypt_once_example =
    decrypt_once toy 300 receiver genuine (fields (drop 8 genuine)) 1 peer_slot [] (0x45 ∷ 7 ∷ [])
      400 ((310, forged) ∷ [])
      (record { parsed = genuine-fields; found = found_three; stands = refl }) new-Represents
      genuine_run
