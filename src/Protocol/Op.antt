-- ===== src/Protocol/Op.antt =====
-- The opcode byte: the opcode in the high five bits, the key id in the low three.
use just_another_vpn_server.Prelude.{
  ℕ, ◌+◌, ◌*◌, ◌/◌, ◌%◌, ◌^◌, ◌≤◌, bit_and, bit_or, ◌≡◌, ◌∙◌, arith, ok,
}
use just_another_vpn_server.Prelude.Bits.{bit_or-fields, bit_and_seven}
use just_another_vpn_server.Protocol.{OpCode, to_u8, from_u8}

pub to_u8_bound : (op : OpCode) → to_u8 op ≤ 11
unfolding to_u8
to_u8_bound op = ground arith

-- Decoding is inverse to the discriminant, both ways.
pub from_u8-to_u8 : (op : OpCode) → from_u8 (to_u8 op) ≡ ok op
unfolding to_u8 from_u8
from_u8-to_u8 op = ground arith

pub to_u8-from_u8 : (v : ℕ) (op : OpCode) → from_u8 v ≡ ok op → to_u8 op ≡ v
unfolding to_u8 from_u8
to_u8-from_u8 v op h = ground arith

pub op_byte : OpCode → ℕ → ℕ
op_byte op key_id = to_u8 op * 8 + key_id % 8

pub op_byte_lem :
    (op : OpCode) (key_id : ℕ)
    → bit_or (to_u8 op * 2 ^ 3 % 256) (bit_and key_id 0x07) ≡ op_byte op key_id
unfolding op_byte
op_byte_lem op key_id =
    let small : to_u8 op * 2 ^ 3 % 256 ≡ to_u8 op * 2 ^ 3 = omega (arith, to_u8_bound op) in
    rw (small, bit_and_seven key_id)
      (bit_or-fields 3 (to_u8 op) (key_id % 8) (omega arith) ∙ omega arith)

pub op_byte_opcode : (op : OpCode) (key_id : ℕ) → from_u8 (op_byte op key_id / 2 ^ 3) ≡ ok op
unfolding op_byte
op_byte_opcode op key_id =
    let e : (to_u8 op * 8 + key_id % 8) / 2 ^ 3 ≡ to_u8 op = omega arith in rw e (from_u8-to_u8 op)

pub op_byte_key : (op : OpCode) (key_id : ℕ) → bit_and (op_byte op key_id) 0x07 ≡ key_id % 8
unfolding op_byte
op_byte_key op key_id = bit_and_seven _ ∙ omega arith

-- A byte that decodes is the opcode byte of what it decodes to.
pub op_byte_inverse :
    (first : ℕ) (op : OpCode)
    → from_u8 (first / 2 ^ 3) ≡ ok op
    → op_byte op (bit_and first 0x07) ≡ first
unfolding op_byte
op_byte_inverse first op h = rw bit_and_seven (omega (arith, to_u8-from_u8 (first / 2 ^ 3) op h))

pub op_byte_div : (op : OpCode) (key_id : ℕ) → op_byte op key_id / 2 ^ 3 ≡ to_u8 op
unfolding op_byte
op_byte_div op key_id = omega arith
