-- ===== src/Protocol/Canonical.antt =====
-- src/protocol.rs: `encode` behind `parse`.
use just_another_vpn_server.Prelude.{
  ℕ, zero, suc, ◌*◌, ◌/◌, ◌^◌, ◌≤◌, ◌<◌, bit_and, ◌≡◌, refl, sym, ap, ◌∙◌, subst, Bool, true, false,
  not, List, [], ◌∷◌, ◌++◌, Option, none, some, length, All, arith, ok, Result, Error, ltb,
  length-append, bail_if, ◌>>◌, ◌>>=◌, ok-injective, lt→ltb, ltb_false→le, >>=-eq-ok, bail_if-eq-ok,
}
use mathlib.Core.List.{append_assoc}
use Error.{missing_packet_id, missing_remote_session_id}
use native.Mathlib.Nat.{mod-eq_of_lt}
use just_another_vpn_server.Prelude.Bytes.{
  Buf, IsBuf, to_be, IsByte, IsU32, IsU64, get_u32_split, get_u64_split, length-to_be,
}
use just_another_vpn_server.Prelude.Bits.{bit_and_seven}
use just_another_vpn_server.Protocol.{
  OpCode, ControlPacket, get_acks, get_remote, get_packet_id, parse_tail, parse_body, parse, encode,
  is_ack, is_control, from_u8,
}
use just_another_vpn_server.Protocol.Op.{op_byte_inverse}
use just_another_vpn_server.Protocol.Wire.{
  be_acks, be_remote, be_packet_id, wire, encode-wire, RemoteFits, PacketIdFits, IsWire,
}

module _ {lib : Buf} (laws : IsBuf lib) where
  get_acks_split :
      (n : ℕ) (b : List ℕ)
      → n * 4 ≤ length b
      → All IsByte b
      → (b ≡ be_acks (get_acks lib n b).0 ++ (get_acks lib n b).1)
        × (length (get_acks lib n b).0 ≡ n)
        × All IsU32 (get_acks lib n b).0
        × All IsByte (get_acks lib n b).1
  unfolding get_acks be_acks
  get_acks_split zero b h bytes = (refl, refl, tt, bytes)
  get_acks_split (suc n) b h bytes =
      let (e, fits, bytes1) = get_u32_split laws b (omega arith) bytes in
      let x : ℕ = (lib.get_u32 b).0 in
      let b1 : List ℕ = (lib.get_u32 b).1 in
      let len : n * 4 ≤ length b1 =
        omega (arith, ap length e, length-append (to_be 4 x) b1, length-to_be 4 x) in
      let (e2, len2, fits2, bytes2) = get_acks_split n b1 len bytes1 in
      (
        e
            ∙ ap (◌++◌ (to_be 4 x)) e2
            ∙ sym (append_assoc (to_be 4 x) (be_acks (get_acks lib n b1).0) (get_acks lib n b1).1),
        ap suc len2,
        (fits, fits2),
        bytes2,
      )

  get_remote_split :
      (acks b : List ℕ) (r : Option ℕ) (rest : List ℕ)
      → All IsByte b
      → get_remote lib (length acks) b ≡ ok (r, rest)
      → (b ≡ be_remote acks r ++ rest) × RemoteFits acks r × All IsByte rest
  unfolding get_remote be_remote
  get_remote_split [] b r rest bytes h = ground arith
  get_remote_split (a ∷ more) b r rest bytes h =
      let t : ltb 0 (suc (length more)) ≡ true = lt→ltb 0 (suc (length more)) (omega arith) in
      let h' : (bail_if (ltb (length b) 8) missing_remote_session_id
            >> ok (some (lib.get_u64 b).0, (lib.get_u64 b).1))
          ≡ ok (r, rest) =
        rw t at h in
      let (room, e) = bail_if-eq-ok (ltb (length b) 8) _ _ h' in
      let er : r ≡ some (lib.get_u64 b).0 = ap (λ x. x.0) (sym (ok-injective e)) in
      let et : rest ≡ (lib.get_u64 b).1 = ap (λ x. x.1) (sym (ok-injective e)) in
      rw (er, et) (get_u64_split laws b (ltb_false→le _ _ room) bytes)

  get_packet_id_split :
      (op : OpCode) (b : List ℕ) (r : Option ℕ) (rest : List ℕ) (ack : Bool)
      → is_ack op ≡ ack
      → All IsByte b
      → get_packet_id lib op b ≡ ok (r, rest)
      → (b ≡ be_packet_id r ++ rest) × PacketIdFits ack r
  unfolding get_packet_id be_packet_id
  get_packet_id_split op b r rest true a bytes h =
      let e : ◌≡◌ {A = Result (Option ℕ × List ℕ)} (ok (none, b)) (ok (r, rest)) = rw a at h in
      let er : r ≡ none = ap (λ x. x.0) (sym (ok-injective e)) in
      let et : rest ≡ b = ap (λ x. x.1) (sym (ok-injective e)) in rw (er, et) (refl, tt)
  get_packet_id_split op b r rest false a bytes h =
      let h' : (bail_if (ltb (length b) 4) missing_packet_id
            >> ok (some (lib.get_u32 b).0, (lib.get_u32 b).1))
          ≡ ok (r, rest) =
        rw a at h in
      let (room, e) = bail_if-eq-ok (ltb (length b) 4) _ _ h' in
      let er : r ≡ some (lib.get_u32 b).0 = ap (λ x. x.0) (sym (ok-injective e)) in
      let et : rest ≡ (lib.get_u32 b).1 = ap (λ x. x.1) (sym (ok-injective e)) in
      let (same, fits, _) = get_u32_split laws b (ltb_false→le _ _ room) bytes in
      rw (er, et) (same, fits)

  -- `p` is what the bytes `b` behind the ack count `n` stand for.
  record TailOf (op : OpCode) (key_id sid n : ℕ) (b : List ℕ) (p : ControlPacket) : Type 0 where
    same_op : p.op ≡ op
    same_key : p.key_id ≡ key_id
    same_sid : p.session_id ≡ sid
    count : length p.acks ≡ n
    acks_fit : All IsU32 p.acks
    remote : RemoteFits p.acks p.remote_session_id
    pid : PacketIdFits (is_ack op) p.packet_id
    bytes :
        b
        ≡ be_acks p.acks
          ++ (be_remote p.acks p.remote_session_id ++ (be_packet_id p.packet_id ++ p.payload))

  parse_tail-TailOf :
      (op : OpCode) (key_id sid n : ℕ) (b : List ℕ) (p : ControlPacket)
      → All IsByte b
      → parse_tail lib op key_id sid n b ≡ ok p
      → TailOf op key_id sid n b p
  unfolding parse_tail
  parse_tail-TailOf op key_id sid n b p bytes h =
      let (room, h1) = bail_if-eq-ok (ltb (length b) (n * 4)) _ _ h in
      let (e1, len, fits, bytes1) = get_acks_split n b (ltb_false→le _ _ room) bytes in
      let acks : List ℕ = (get_acks lib n b).0 in
      let b1 : List ℕ = (get_acks lib n b).1 in
      let ((remote, b2), e2, h2) = >>=-eq-ok (get_remote lib n b1) _ h1 in
      let (e3, remote_fits, bytes2) = get_remote_split acks b1 remote b2 bytes1 (rw len e2) in
      let ((pid, payload), e4, h3) = >>=-eq-ok (get_packet_id lib op b2) _ h2 in
      let (e5, pid_fits) = get_packet_id_split op b2 pid payload (is_ack op) refl bytes2 e4 in
      subst (TailOf op key_id sid n b) (ok-injective h3) (record {
        same_op = refl;
        same_key = refl;
        same_sid = refl;
        count = len;
        acks_fit = fits;
        remote = remote_fits;
        pid = pid_fits;
        bytes = e1 ∙ ap (◌++◌ (be_acks acks)) (e3 ∙ ap (◌++◌ (be_remote acks remote)) e5);
      })

  -- `p` is what the bytes `b` behind the opcode byte stand for.
  record BodyOf (op : OpCode) (key_id : ℕ) (b : List ℕ) (p : ControlPacket) : Type 0 where
    sid : ℕ
    n : ℕ
    rest : List ℕ
    control : is_control op ≡ true
    sid_fits : IsU64 sid
    count_fits : n < 256
    split : b ≡ to_be 8 sid ++ (n ∷ rest)
    tail : TailOf op key_id sid n rest p

  count_byte :
      (op : OpCode) (key_id sid : ℕ) (b b1 : List ℕ) (p : ControlPacket)
      → is_control op ≡ true
      → IsU64 sid
      → b ≡ to_be 8 sid ++ b1
      → All IsByte b1
      → 1 ≤ length b1
      → parse_tail lib op key_id sid (lib.get_u8 b1).0 (lib.get_u8 b1).1 ≡ ok p
      → BodyOf op key_id b p
  count_byte op key_id sid b [] p ctl fits e bytes l h = absurd (omega arith)
  count_byte op key_id sid b (n ∷ rest) p ctl fits e bytes l h = record {
    sid = sid;
    n = n;
    rest = rest;
    control = ctl;
    sid_fits = fits;
    count_fits = bytes.0;
    split = e;
    tail = parse_tail-TailOf op key_id sid n rest p bytes.1 (rw (laws.get_u8_eq n rest) at h);
  }

  parse_body-BodyOf :
      (op : OpCode) (key_id : ℕ) (b : List ℕ) (p : ControlPacket)
      → All IsByte b
      → parse_body lib op key_id b ≡ ok p
      → BodyOf op key_id b p
  unfolding parse_body
  parse_body-BodyOf op key_id b p bytes h =
      let (ctl, h1) = bail_if-eq-ok (not (is_control op)) _ _ h in
      let (room, h2) = bail_if-eq-ok (ltb (length b) 8) _ _ h1 in
      let (room1, h3) = bail_if-eq-ok (ltb (length (lib.get_u64 b).1) 1) _ _ h2 in
      let (e, fits, bytes1) = get_u64_split laws b (ltb_false→le _ _ room) bytes in
      count_byte op key_id (lib.get_u64 b).0 b (lib.get_u64 b).1 p (ground arith) fits e bytes1
        (ltb_false→le _ _ room1) h3

  BodyOf-IsWire :
      (op : OpCode) (first : ℕ) (b : List ℕ) (p : ControlPacket)
      → from_u8 (first / 2 ^ 3) ≡ ok op
      → BodyOf op (bit_and first 0x07) b p
      → IsWire p × (wire p ≡ first ∷ b)
  unfolding wire
  BodyOf-IsWire op first b p e body =
      let t = body.tail in
      let fits : IsWire p = record {
        control = rw t.same_op body.control;
        key = omega (arith, t.same_key, bit_and_seven first);
        session = rw t.same_sid body.sid_fits;
        few_acks = rw t.count body.count_fits;
        acks_fit = t.acks_fit;
        remote = t.remote;
        pid = rw t.same_op t.pid;
      } in
      (
        fits,
        rw (
          t.same_op,
          t.same_key,
          t.same_sid,
          t.count,
          mod-eq_of_lt body.count_fits,
          op_byte_inverse first op e,
          body.split,
          t.bytes,
        ),
      )

  -- Every byte string that `parse` accepts is, byte for byte, the encoding of the packet that it
  -- returns, and that packet fits the wire format.
  pub encode-parse :
      (b : List ℕ) (p : ControlPacket)
      → All IsByte b
      → parse lib b ≡ ok p
      → IsWire p × (encode lib p ≡ b)
  unfolding parse
  encode-parse [] p bytes h = cc
  encode-parse (first ∷ b1) p bytes h =
      let h0 : (from_u8 (first / 2 ^ 3) >>= λ op. parse_body lib op (bit_and first 0x07) b1)
          ≡ ok p =
        rw (laws.get_u8_eq first b1) at h in
      let (op, e0, h1) = >>=-eq-ok (from_u8 (first / 2 ^ 3)) _ h0 in
      let (fits, same) =
        BodyOf-IsWire op first b1 p e0
          (parse_body-BodyOf op (bit_and first 0x07) b1 p bytes.1 h1) in
      (fits, encode-wire laws p ∙ same)
