-- ===== src/Protocol/Data.antt =====
-- The header of `P_DATA_V2` packets: opcode byte, 24-bit peer id, 32-bit packet id.
use just_another_vpn_server.Prelude.{
  ℕ, ◌+◌, ◌*◌, ◌/◌, ◌%◌, ◌^◌, ◌<◌, bit_or, ◌≡◌, ◌∙◌, false, List, ◌∷◌, ◌++◌, length, arith, ok, ltb,
  ==_self, length-append, le→ltb_false, take-append, drop-append,
}
use just_another_vpn_server.Prelude.Bytes.{to_be, IsU32, from_be-to_be, length-to_be}
use just_another_vpn_server.Prelude.Bits.{bit_or-fields}
use just_another_vpn_server.Protocol.{data_v2, to_u8, parse_data}
use just_another_vpn_server.Protocol.Op.{op_byte, op_byte_key, op_byte_div}
use native.Mathlib.Nat.{mod-eq_of_lt}

-- A packet id, with its top bytes in front.
unfoldable pub data_header : ℕ → ℕ → ℕ → List ℕ
data_header key_id peer_id packet_id =
    op_byte data_v2 key_id
    ∷ (peer_id / 2 ^ 16 % 256)
    ∷ (peer_id / 2 ^ 8 % 256)
    ∷ (peer_id % 256)
    ∷ to_be 4 packet_id

pub length-data_header :
    (key_id peer_id packet_id : ℕ) → length (data_header key_id peer_id packet_id) ≡ 8
unfolding data_header
length-data_header key_id peer_id packet_id = omega (arith, length-to_be 4 packet_id)

peer_bytes :
    (peer_id : ℕ)
    → peer_id < 2 ^ 24
    → bit_or
        (bit_or (peer_id / 2 ^ 16 % 256 * 2 ^ 16) (peer_id / 2 ^ 8 % 256 * 2 ^ 8))
        (peer_id % 256)
      ≡ peer_id
peer_bytes peer_id h =
    let hi : ℕ = peer_id / 2 ^ 16 % 256 in
    let mid : ℕ = peer_id / 2 ^ 8 % 256 in
    let inner : bit_or (hi * 2 ^ 16) (mid * 2 ^ 8) ≡ (hi * 256 + mid) * 2 ^ 8 =
      bit_or-fields 16 hi (mid * 2 ^ 8) (omega arith) ∙ omega arith in
    rw inner (bit_or-fields 8 (hi * 256 + mid) (peer_id % 256) (omega arith) ∙ omega arith)

-- A data packet that is built from a header and a body is read back with the same fields, if
-- they fit it: a key id of 3 bits, a peer id of 24 and a packet id of 32.
pub parse_data-data_header :
    (key_id peer_id packet_id : ℕ) (body : List ℕ)
    → key_id < 8
    → peer_id < 2 ^ 24
    → IsU32 packet_id
    → parse_data (data_header key_id peer_id packet_id ++ body)
      ≡ ok (record { key_id = key_id; peer_id = peer_id; packet_id = packet_id; ciphertext = body })
unfolding parse_data data_header
parse_data-data_header key_id peer_id packet_id body hk hp hi =
    let room : ltb (length (data_header key_id peer_id packet_id ++ body)) 8 ≡ false =
      le→ltb_false _ _ (
        omega (
          arith,
          length-append (data_header key_id peer_id packet_id) body,
          length-data_header key_id peer_id packet_id,
        )) in
    rw (
      room,
      op_byte_div data_v2 key_id,
      ==_self (to_u8 data_v2),
      op_byte_key data_v2 key_id,
      peer_bytes peer_id hp,
      take-append 4 (to_be 4 packet_id) body (length-to_be 4 packet_id),
      drop-append 4 (to_be 4 packet_id) body (length-to_be 4 packet_id),
      from_be-to_be 4 packet_id hi,
      mod-eq_of_lt hk,
    )
