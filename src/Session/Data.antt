-- ===== src/Session/Data.antt =====
-- Data packets from `build_data_packet` to the peer's `parse` and `open`.
use just_another_vpn_server.Prelude.{
  ℕ, ◌+◌, ◌/◌, ◌^◌, ◌<◌, ◌≡◌, refl, sym, ap, ◌∙◌, List, ◌++◌, some, arith, length, ok, ◌>>=◌, take,
  >>=-eq-ok, ok-injective, length-append, take-append,
}
use just_another_vpn_server.Prelude.Bits.{bit_and_byte}
use just_another_vpn_server.Prelude.Bytes.{IsU32}
use just_another_vpn_server.Primitives.{Primitives, IsPrimitives}
use just_another_vpn_server.Protocol.{DataPacketV2, parse_data, data_v2}
use just_another_vpn_server.Protocol.Op.{op_byte_lem}
use just_another_vpn_server.Protocol.Data.{data_header, length-data_header, parse_data-data_header}
use just_another_vpn_server.Crypto.{seal, open_wire}
use just_another_vpn_server.Crypto.Seal.{mirror, open-seal, seal_total}
use just_another_vpn_server.Session.{KeySlot}
use just_another_vpn_server.Session.Slots.{packet_header, seal_packet}

packet_header-data_header :
    (key_id peer_id pid : ℕ) → packet_header key_id peer_id pid ≡ data_header key_id peer_id pid
unfolding packet_header data_header
packet_header-data_header key_id peer_id pid =
    rw
      (
        op_byte_lem data_v2 key_id,
        bit_and_byte (peer_id / 2 ^ 16),
        bit_and_byte (peer_id / 2 ^ 8),
        bit_and_byte peer_id,
      )
      refl

-- A key slot whose ids fit the packet header.
abbrev pub IsSlot : KeySlot → Type 0
IsSlot slot = (slot.key_id < 8) × IsU32 slot.data_pid_out

module _ {lib : Primitives} (laws : IsPrimitives lib) where
  -- A packet that a slot seals is 24 bytes longer than its plaintext; the peer reads the slot's key
  -- id, the session's peer id and the slot's packet id from it, and opens the rest to the plaintext. The
  -- slot's ids fit the header and the peer id has 24 bits.
  pub seal_packet-opens :
      (slot : KeySlot) (peer_id : ℕ) (plaintext pkt : List ℕ)
      → IsSlot slot
      → peer_id < 2 ^ 24
      → seal_packet lib slot peer_id plaintext ≡ ok pkt
      → (dp : DataPacketV2) × (parse_data pkt ≡ ok dp)
        × (dp.key_id ≡ slot.key_id)
        × (dp.peer_id ≡ peer_id)
        × (dp.packet_id ≡ slot.data_pid_out)
        × (open_wire lib (mirror slot.cipher) dp.packet_id (take 8 pkt) dp.ciphertext
            ≡ ok plaintext)
        × (length pkt ≡ length plaintext + 24)
  unfolding seal_packet
  seal_packet-opens slot peer_id plaintext pkt v hp h =
      let header : List ℕ = packet_header slot.key_id peer_id slot.data_pid_out in
      let same : header ≡ data_header slot.key_id peer_id slot.data_pid_out =
        packet_header-data_header slot.key_id peer_id slot.data_pid_out in
      let l8 : length header ≡ 8 =
        ap length same ∙ length-data_header slot.key_id peer_id slot.data_pid_out in
      let (ct, sealed, out) =
        >>=-eq-ok (seal lib slot.cipher slot.data_pid_out header plaintext) _ h in
      let (len, opened) = open-seal laws slot.cipher slot.data_pid_out header plaintext ct sealed in
      let pkt_eq : header ++ ct ≡ pkt = ok-injective out in
      (
        record {
          key_id = slot.key_id;
          peer_id = peer_id;
          packet_id = slot.data_pid_out;
          ciphertext = ct;
        },
        ap parse_data (sym pkt_eq)
            ∙ ap (λ t. parse_data (t ++ ct)) same
            ∙ parse_data-data_header slot.key_id peer_id slot.data_pid_out ct v.0 hp v.1,
        refl,
        refl,
        refl,
        ap (λ t. open_wire lib (mirror slot.cipher) slot.data_pid_out t ct)
              (ap (take 8) (sym pkt_eq) ∙ take-append 8 header ct l8)
            ∙ opened,
        ap length (sym pkt_eq) ∙ omega (arith, length-append header ct),
      )

-- Where the cipher seals every message, every packet is built.
pub seal_packet_total :
    (lib : Primitives) (slot : KeySlot) (peer_id : ℕ) (plaintext : List ℕ)
    → ((key nonce aad msg : List ℕ) → (ct : List ℕ) × (lib.gcm_encrypt key nonce aad msg ≡ some ct))
    → (pkt : List ℕ) × (seal_packet lib slot peer_id plaintext ≡ ok pkt)
unfolding seal_packet
seal_packet_total lib slot peer_id plaintext total =
    let header : List ℕ = packet_header slot.key_id peer_id slot.data_pid_out in
    let (ct, sealed) = seal_total lib slot.cipher slot.data_pid_out header plaintext total in
    (header ++ ct, ap (λ r. r >>= λ t. ok (header ++ t)) sealed)
