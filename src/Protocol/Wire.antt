-- ===== src/Protocol/Wire.antt =====
-- What `encode` writes, as one concatenation, and the packets that the wire format can carry.
use just_another_vpn_server.Prelude.{
  ℕ, ◌%◌, ◌<◌, ◌≡◌, sym, ◌∙◌, Bool, true, false, List, [], ◌∷◌, ◌++◌, Option, none, some, length,
  All,
}
use mathlib.Core.List.{append_assoc, append-nil}
use just_another_vpn_server.Prelude.Bytes.{Buf, IsBuf, to_be, IsU32, IsU64}
use just_another_vpn_server.Protocol.{
  ControlPacket, put_acks, put_remote, put_packet_id, encode, is_ack, is_control,
}
use just_another_vpn_server.Protocol.Op.{op_byte, op_byte_lem}

unfoldable pub be_acks : List ℕ → List ℕ
be_acks [] = []
be_acks (a ∷ more) = to_be 4 a ++ be_acks more

unfoldable pub be_remote : List ℕ → Option ℕ → List ℕ
be_remote [] remote = []
be_remote (a ∷ more) none = to_be 8 0
be_remote (a ∷ more) (some r) = to_be 8 r

unfoldable pub be_packet_id : Option ℕ → List ℕ
be_packet_id none = []
be_packet_id (some p) = to_be 4 p

unfoldable pub wire : ControlPacket → List ℕ
wire p =
    op_byte p.op p.key_id
    ∷ (to_be 8 p.session_id
        ++ (length p.acks % 256
            ∷ (be_acks p.acks
                ++ (be_remote p.acks p.remote_session_id
                    ++ (be_packet_id p.packet_id ++ p.payload)))))

module _ {lib : Buf} (laws : IsBuf lib) where
  put_acks-be_acks : (out acks : List ℕ) → put_acks lib out acks ≡ out ++ be_acks acks
  unfolding put_acks be_acks
  put_acks-be_acks out [] = sym (append-nil out)
  put_acks-be_acks out (a ∷ more) =
      put_acks-be_acks (lib.put_u32 out a) more
      ∙ rw (laws.put_u32_eq out a) (append_assoc out (to_be 4 a) (be_acks more))

  put_remote-be_remote :
      (out acks : List ℕ) (remote : Option ℕ)
      → put_remote lib out acks remote ≡ out ++ be_remote acks remote
  unfolding put_remote be_remote
  put_remote-be_remote out [] remote = sym (append-nil out)
  put_remote-be_remote out (a ∷ more) none = laws.put_u64_eq out 0
  put_remote-be_remote out (a ∷ more) (some r) = laws.put_u64_eq out r

  put_packet_id-be_packet_id :
      (out : List ℕ) (pid : Option ℕ) → put_packet_id lib out pid ≡ out ++ be_packet_id pid
  unfolding put_packet_id be_packet_id
  put_packet_id-be_packet_id out none = sym (append-nil out)
  put_packet_id-be_packet_id out (some p) = laws.put_u32_eq out p

  pub encode-wire : (p : ControlPacket) → encode lib p ≡ wire p
  unfolding encode wire
  encode-wire p = simp (
    op_byte_lem, laws.put_u8_eq, laws.put_u64_eq, put_acks-be_acks, put_remote-be_remote,
    put_packet_id-be_packet_id, append_assoc,
  )

-- A remote session id goes with acks, and a packet id with every opcode but `ack_v1`.
abbrev pub RemoteFits : List ℕ → Option ℕ → Type 0
RemoteFits [] none = Unit
RemoteFits [] (some r) = ⊥
RemoteFits (a ∷ more) none = ⊥
RemoteFits (a ∷ more) (some r) = IsU64 r

abbrev pub PacketIdFits : Bool → Option ℕ → Type 0
PacketIdFits true none = Unit
PacketIdFits true (some p) = ⊥
PacketIdFits false none = ⊥
PacketIdFits false (some p) = IsU32 p

pub record IsWire (p : ControlPacket) : Type 0 where
  pub control : is_control p.op ≡ true
  pub key : p.key_id < 8
  pub session : IsU64 p.session_id
  pub few_acks : length p.acks < 256
  pub acks_fit : All IsU32 p.acks
  pub remote : RemoteFits p.acks p.remote_session_id
  pub pid : PacketIdFits (is_ack p.op) p.packet_id
