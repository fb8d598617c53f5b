-- ===== src/Protocol.antt =====
-- src/protocol.rs: opcodes, control packets and the header of data packets. A byte slice is a list
-- of numbers; the `bytes` crate is the parameter `lib`.
pub mod Op
pub mod Wire
pub mod RoundTrip
pub mod Canonical
pub mod Data
mod Tests
use just_another_vpn_server.Prelude.{
  ℕ, zero, suc, ◌+◌, ◌*◌, ◌/◌, ◌%◌, ◌^◌, bit_and, bit_or, Bool, true, false, not, List, [], ◌∷◌,
  ◌++◌, Option, none, some, ltb, ◌==◌, if◌then◌else◌, length, get_or, drop, take, is_empty, Result,
  ok, err, Error, ◌>>=◌, ◌>>◌, bail_if,
}
use just_another_vpn_server.Prelude.Bytes.{Buf, from_be}
use Error.{
  empty_packet, unknown_opcode, not_control, missing_session_id, missing_ack_count, truncated_acks,
  missing_remote_session_id, missing_packet_id, data_too_short, not_data_v2,
}

pub data OpCode : Type 0 where
  control_hard_reset_client_v1 control_hard_reset_server_v1 control_soft_reset_v1 : OpCode
  control_v1 ack_v1 data_v1 control_hard_reset_client_v2 control_hard_reset_server_v2 : OpCode
  data_v2 control_hard_reset_client_v3 control_wkc_v1 : OpCode

-- `op as u8`
unfoldable pub to_u8 : OpCode → ℕ
to_u8 control_hard_reset_client_v1 = 1
to_u8 control_hard_reset_server_v1 = 2
to_u8 control_soft_reset_v1 = 3
to_u8 control_v1 = 4
to_u8 ack_v1 = 5
to_u8 data_v1 = 6
to_u8 control_hard_reset_client_v2 = 7
to_u8 control_hard_reset_server_v2 = 8
to_u8 data_v2 = 9
to_u8 control_hard_reset_client_v3 = 10
to_u8 control_wkc_v1 = 11

unfoldable pub from_u8 : ℕ → Result OpCode
from_u8 v =
    if v == 1
    then ok control_hard_reset_client_v1
    else if v == 2
    then ok control_hard_reset_server_v1
    else if v == 3
    then ok control_soft_reset_v1
    else if v == 4
    then ok control_v1
    else if v == 5
    then ok ack_v1
    else if v == 6
    then ok data_v1
    else if v == 7
    then ok control_hard_reset_client_v2
    else if v == 8
    then ok control_hard_reset_server_v2
    else if v == 9
    then ok data_v2
    else if v == 10
    then ok control_hard_reset_client_v3
    else if v == 11
    then ok control_wkc_v1
    else err unknown_opcode

abbrev pub is_data : OpCode → Bool
is_data data_v1 = true
is_data data_v2 = true
is_data _ = false

abbrev pub is_control : OpCode → Bool
is_control op = not (is_data op)

abbrev pub is_ack : OpCode → Bool
is_ack ack_v1 = true
is_ack _ = false

pub record ControlPacket : Type 0 where
  pub op : OpCode
  pub key_id : ℕ
  pub session_id : ℕ
  pub acks : List ℕ
  pub remote_session_id : Option ℕ
  pub packet_id : Option ℕ
  pub payload : List ℕ

pub record DataPacketV2 : Type 0 where
  pub key_id : ℕ
  pub peer_id : ℕ
  pub packet_id : ℕ
  pub ciphertext : List ℕ

module _ (lib : Buf) where
  -- `for _ in 0..ack_count { acks.push(b.get_u32()) }`
  unfoldable pub get_acks : ℕ → List ℕ → List ℕ × List ℕ
  get_acks zero b = ([], b)
  get_acks (suc n) b =
      let (a, b1) = lib.get_u32 b in let (rest, b2) = get_acks n b1 in (a ∷ rest, b2)

  unfoldable pub get_remote : ℕ → List ℕ → Result (Option ℕ × List ℕ)
  get_remote ack_count b =
      if ltb 0 ack_count
      then (do
        bail_if (ltb (length b) 8) missing_remote_session_id
        let (r, b1) = lib.get_u64 b
        ok (some r, b1))
      else ok (none, b)

  unfoldable pub get_packet_id : OpCode → List ℕ → Result (Option ℕ × List ℕ)
  get_packet_id op b =
      if not (is_ack op)
      then (do
        bail_if (ltb (length b) 4) missing_packet_id
        let (p, b1) = lib.get_u32 b
        ok (some p, b1))
      else ok (none, b)

  -- The part of `parse` behind the ack count.
  unfoldable pub parse_tail : OpCode → ℕ → ℕ → ℕ → List ℕ → Result ControlPacket
  parse_tail op key_id session_id ack_count b = do
    bail_if (ltb (length b) (ack_count * 4)) truncated_acks
    let (acks, b1) = get_acks ack_count b
    (remote_session_id, b2) ← get_remote ack_count b1
    (packet_id, payload) ← get_packet_id op b2
    ok (record {
      op = op;
      key_id = key_id;
      session_id = session_id;
      acks = acks;
      remote_session_id = remote_session_id;
      packet_id = packet_id;
      payload = payload;
    })

  -- The part of `parse` behind the opcode byte.
  unfoldable pub parse_body : OpCode → ℕ → List ℕ → Result ControlPacket
  parse_body op key_id b = do
    bail_if (not (is_control op)) not_control
    bail_if (ltb (length b) 8) missing_session_id
    let (session_id, b1) = lib.get_u64 b
    bail_if (ltb (length b1) 1) missing_ack_count
    let (ack_count, b2) = lib.get_u8 b1
    parse_tail op key_id session_id ack_count b2

  unfoldable pub parse : List ℕ → Result ControlPacket
  parse b = do
    bail_if (is_empty b) empty_packet
    let (first, b1) = lib.get_u8 b
    op ← from_u8 (first / 2 ^ 3)
    parse_body op (bit_and first 0x07) b1

  unfoldable pub put_acks : List ℕ → List ℕ → List ℕ
  put_acks out [] = out
  put_acks out (a ∷ more) = put_acks (lib.put_u32 out a) more

  unfoldable pub put_remote : List ℕ → List ℕ → Option ℕ → List ℕ
  put_remote out [] remote = out
  put_remote out (a ∷ more) none = lib.put_u64 out 0
  put_remote out (a ∷ more) (some r) = lib.put_u64 out r

  unfoldable pub put_packet_id : List ℕ → Option ℕ → List ℕ
  put_packet_id out none = out
  put_packet_id out (some p) = lib.put_u32 out p

  -- `acks.len() as u8` keeps the low byte of the count.
  unfoldable pub encode : ControlPacket → List ℕ
  encode p =
      let first = bit_or (to_u8 p.op * 2 ^ 3 % 256) (bit_and p.key_id 0x07) in
      let out = lib.put_u8 [] first in
      let out1 = lib.put_u64 out p.session_id in
      let out2 = lib.put_u8 out1 (length p.acks % 256) in
      let out3 = put_acks out2 p.acks in
      let out4 = put_remote out3 p.acks p.remote_session_id in
      let out5 = put_packet_id out4 p.packet_id in out5 ++ p.payload

-- Matches `ping_string[]` in OpenVPN's `ping.h`.
abbrev pub ping_payload : List ℕ
ping_payload =
    0x2a ∷ 0x18 ∷ 0x7b ∷ 0xf3 ∷ 0x64 ∷ 0x1e ∷ 0xb4 ∷ 0xcb ∷ 0x07 ∷ 0xed ∷ 0x2d ∷ 0x0a ∷ 0x98 ∷ 0x1f
    ∷ 0xc7 ∷ 0x48 ∷ []

unfoldable pub parse_data : List ℕ → Result DataPacketV2
parse_data b = do
  bail_if (ltb (length b) 8) data_too_short
  let first = get_or b 0 0
  let op = first / 2 ^ 3
  bail_if (not (op == to_u8 data_v2)) not_data_v2
  let key_id = bit_and first 0x07
  let peer_id = bit_or (bit_or (get_or b 1 0 * 2 ^ 16) (get_or b 2 0 * 2 ^ 8)) (get_or b 3 0)
  let packet_id = from_be (take 4 (drop 4 b))
  ok (record { key_id = key_id; peer_id = peer_id; packet_id = packet_id; ciphertext = drop 8 b })
