-- ===== src/Protocol/RoundTrip.antt =====
-- src/protocol.rs: `parse` behind `encode`.
use just_another_vpn_server.Prelude.{
  ℕ, suc, ◌*◌, ◌%◌, ◌≡◌, refl, Bool, true, false, List, [], ◌∷◌, ◌++◌, Option, none, some, length,
  All, arith, ok, ltb, length-append, le→ltb_false, lt→ltb,
}
use mathlib.Core.List.{append_assoc}
use native.Mathlib.Nat.{mod-eq_of_lt}
use just_another_vpn_server.Prelude.Bytes.{
  Buf, IsBuf, to_be, IsU32, get_u32-to_be, get_u64-to_be, length-to_be,
}
use just_another_vpn_server.Protocol.{
  OpCode, ControlPacket, get_acks, get_remote, get_packet_id, parse_tail, parse_body, parse, encode,
  is_ack,
}
use just_another_vpn_server.Protocol.Op.{op_byte, op_byte_opcode, op_byte_key}
use just_another_vpn_server.Protocol.Wire.{
  be_acks, be_remote, be_packet_id, wire, encode-wire, RemoteFits, PacketIdFits, IsWire,
}

pub length-be_acks : (acks : List ℕ) → length (be_acks acks) ≡ length acks * 4
unfolding be_acks
length-be_acks [] = refl
length-be_acks (a ∷ more) =
    omega (arith, length-append (to_be 4 a) (be_acks more), length-to_be 4 a, length-be_acks more)

-- A slice that begins with a big-endian number is long enough for it.
prefix_long : (w n : ℕ) (rest : List ℕ) → ltb (length (to_be w n ++ rest)) w ≡ false
prefix_long w n rest =
    le→ltb_false _ _ (omega (arith, length-append (to_be w n) rest, length-to_be w n))

module _ {lib : Buf} (laws : IsBuf lib) where
  get_acks-be_acks :
      (acks rest : List ℕ)
      → All IsU32 acks
      → get_acks lib (length acks) (be_acks acks ++ rest) ≡ (acks, rest)
  unfolding get_acks be_acks
  get_acks-be_acks [] rest h = refl
  get_acks-be_acks (a ∷ more) rest h = rw (
    append_assoc (to_be 4 a) (be_acks more) rest,
    get_u32-to_be laws a (be_acks more ++ rest) h.0,
    get_acks-be_acks more rest h.1,
  )

  get_remote-be_remote :
      (acks : List ℕ) (remote : Option ℕ) (rest : List ℕ)
      → RemoteFits acks remote
      → get_remote lib (length acks) (be_remote acks remote ++ rest) ≡ ok (remote, rest)
  unfolding get_remote be_remote
  get_remote-be_remote [] none rest h = refl
  get_remote-be_remote [] (some r) rest h = absurd h
  get_remote-be_remote (a ∷ more) none rest h = absurd h
  get_remote-be_remote (a ∷ more) (some r) rest h = rw (
    lt→ltb 0 (suc (length more)) (omega arith),
    prefix_long 8 r rest,
    get_u64-to_be laws r rest h,
  )

  get_packet_id-be_packet_id :
      (op : OpCode) (pid : Option ℕ) (rest : List ℕ)
      → (b : Bool) → is_ack op ≡ b
      → PacketIdFits b pid
      → get_packet_id lib op (be_packet_id pid ++ rest) ≡ ok (pid, rest)
  unfolding get_packet_id be_packet_id
  get_packet_id-be_packet_id op none rest true e h = rw e
  get_packet_id-be_packet_id op (some p) rest true e h = absurd h
  get_packet_id-be_packet_id op none rest false e h = absurd h
  get_packet_id-be_packet_id op (some p) rest false e h =
      rw (e, prefix_long 4 p rest, get_u32-to_be laws p rest h)

  -- A control packet that fits the wire format is read back, field for field.
  pub parse-encode : (p : ControlPacket) → IsWire p → parse lib (encode lib p) ≡ ok p
  unfolding parse parse_body parse_tail wire
  parse-encode p v =
      let tail : List ℕ = be_packet_id p.packet_id ++ p.payload in
      let body : List ℕ = be_remote p.acks p.remote_session_id ++ tail in
      let acks : List ℕ = be_acks p.acks ++ body in
      let room : ltb (length acks) (length p.acks * 4) ≡ false =
        le→ltb_false _ _
          (omega (arith, length-append (be_acks p.acks) body, length-be_acks p.acks)) in
      let count : length p.acks % 256 ≡ length p.acks = mod-eq_of_lt v.few_acks in
      rw (
        encode-wire laws p,
        laws.get_u8_eq (op_byte p.op p.key_id)
            (to_be 8 p.session_id ++ (length p.acks % 256 ∷ acks)),
        op_byte_opcode p.op p.key_id,
        op_byte_key p.op p.key_id,
        v.control,
        prefix_long 8 p.session_id (length p.acks % 256 ∷ acks),
        get_u64-to_be laws p.session_id (length p.acks % 256 ∷ acks) v.session,
        laws.get_u8_eq (length p.acks % 256) acks,
        count,
        le→ltb_false (suc (length acks)) 1 (omega arith),
        room,
        get_acks-be_acks p.acks body v.acks_fit,
        get_remote-be_remote p.acks p.remote_session_id tail v.remote,
        get_packet_id-be_packet_id p.op p.packet_id p.payload (is_ack p.op) refl v.pid,
        mod-eq_of_lt v.key,
      )
