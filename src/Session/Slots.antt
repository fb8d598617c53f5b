-- ===== src/Session/Slots.antt =====
-- src/session.rs: the data-channel keys of a session and the packets sealed with them.
use just_another_vpn_server.Prelude.{
  ℕ, zero, suc, ◌+◌, ◌-◌, ◌*◌, ◌/◌, ◌%◌, ◌^◌, bit_and, bit_or, Bool, true, false, List, ◌∷◌, ◌++◌,
  Option, none, some, ◌==◌, if◌then◌else◌, Result, ok, err, Error, ◌>>=◌, or_fail,
}
use just_another_vpn_server.Prelude.Bytes.{to_be}
use just_another_vpn_server.Primitives.{Primitives}
use just_another_vpn_server.Protocol.{to_u8, data_v2}
use just_another_vpn_server.Crypto.{from_keymat_server, seal}
use just_another_vpn_server.Prf.{derive_openvpn_key_data}
use just_another_vpn_server.Replay
use just_another_vpn_server.Session.{Session, KeySlot, key_exchange}
use Error.{missing_pre_master, missing_random1, missing_random2, no_active_slot}

abbrev pub has_key_id : Option KeySlot → ℕ → Bool
has_key_id none key_id = false
has_key_id (some s) key_id = s.key_id == key_id

unfoldable pub new_slot : ℕ → List ℕ → KeySlot
new_slot key_id key_data = record {
  key_id = key_id;
  cipher = from_keymat_server key_data;
  data_pid_out = 1;
  replay = Replay.new;
}

-- The first eight bytes of a data packet.
unfoldable pub packet_header : ℕ → ℕ → ℕ → List ℕ
packet_header key_id peer_id pid =
    bit_or (to_u8 data_v2 * 2 ^ 3 % 256) (bit_and key_id 0x07)
    ∷ bit_and (peer_id / 2 ^ 16) 0xff
    ∷ bit_and (peer_id / 2 ^ 8) 0xff
    ∷ bit_and peer_id 0xff
    ∷ to_be 4 pid

unfoldable pub seal_packet : Primitives → KeySlot → ℕ → List ℕ → Result (List ℕ)
seal_packet lib slot peer_id plaintext = do
  let header = packet_header slot.key_id peer_id slot.data_pid_out
  ct ← seal lib slot.cipher slot.data_pid_out header plaintext
  ok (header ++ ct)

module _ {Conn : Type 0} where
  -- `self.slots[idx]`; an index above 1 does not occur.
  abbrev pub slot_at : Session Conn → ℕ → Option KeySlot
  slot_at self zero = self.slot0
  slot_at self (suc idx) = self.slot1

  abbrev pub set_slot : Session Conn → ℕ → Option KeySlot → Session Conn
  set_slot self zero s = record self { slot0 = s }
  set_slot self (suc idx) s = record self { slot1 = s }

  abbrev pub active_slot : Session Conn → Option KeySlot
  active_slot self = slot_at self self.active_slot_idx

  -- The session after the call, and whether a slot matched.
  unfoldable pub promote_slot : Session Conn → ℕ → Session Conn × Bool
  promote_slot self key_id =
      if has_key_id self.slot0 key_id
      then (record self { active_slot_idx = 0 }, true)
      else if has_key_id self.slot1 key_id
      then (record self { active_slot_idx = 1 }, true)
      else (self, false)

  -- The index of the slot that the reference of the source points into.
  unfoldable pub slot_by_key_id : Session Conn → ℕ → Option ℕ
  slot_by_key_id self key_id =
      if has_key_id self.slot0 key_id
      then some 0
      else if has_key_id self.slot1 key_id
      then some 1
      else none

  unfoldable pub install_slot : Session Conn → KeySlot → Session Conn
  install_slot self slot = set_slot self (1 - self.active_slot_idx) (some slot)

  -- The first argument is the name in the peer's certificate: `none` without a certificate, and an error
  -- where it cannot be read.
  unfoldable pub finalize_keys : Option (Result (Option (List ℕ))) → Session Conn → Session Conn
  finalize_keys none self = record self { state = key_exchange }
  finalize_keys (some (ok cn)) self = record self { client_cn = cn; state = key_exchange }
  finalize_keys (some (err e)) self = record self { state = key_exchange }

  abbrev pub place_slot : Session Conn → KeySlot → Option KeySlot → Session Conn
  place_slot self slot none = record self { slot0 = some slot; active_slot_idx = 0 }
  place_slot self slot (some active) = install_slot self slot

  module _ (lib : Primitives) where
    unfoldable pub install_prf_slot : Session Conn → ℕ → Result (Session Conn)
    install_prf_slot self key_id = do
      pre_master ← or_fail self.client_pre_master missing_pre_master
      c_r1 ← or_fail self.client_random1 missing_random1
      c_r2 ← or_fail self.client_random2 missing_random2
      let c_sid = to_be 8 self.client_session_id
      let s_sid = to_be 8 self.server_session_id
      let key_data =
          derive_openvpn_key_data lib pre_master c_r1 self.server_random1 c_r2 self.server_random2
            c_sid s_sid
      ok (place_slot self (new_slot key_id key_data) (active_slot self))

    -- The packet id is used up whether or not sealing succeeds.
    abbrev pub build_with : Session Conn → Option KeySlot → List ℕ → Session Conn × Result (List ℕ)
    build_with self none plaintext = (self, err no_active_slot)
    build_with self (some slot) plaintext =
        let next = record slot { data_pid_out = (slot.data_pid_out + 1) % 2 ^ 32 } in
        (
          set_slot self self.active_slot_idx (some next),
          seal_packet lib slot self.peer_id plaintext,
        )

    unfoldable pub build_data_packet : Session Conn → List ℕ → Session Conn × Result (List ℕ)
    build_data_packet self plaintext = build_with self (active_slot self) plaintext
