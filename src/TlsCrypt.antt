-- ===== src/TlsCrypt.antt =====
-- src/tls_crypt.rs: the `--tls-crypt` envelope, which also encrypts the body of each control packet
-- under an initial counter block taken from the tag.
pub mod Envelope
mod Tests
use just_another_vpn_server.Prelude.{
  ℕ, ◌+◌, ◌*◌, List, [], ◌∷◌, ◌++◌, length, take, drop, get_or, not, ltb, Result, ok, Error, ◌>>=◌,
  ◌>>◌, bail_if,
}
use just_another_vpn_server.Prelude.Bytes.{to_be, from_be}
use just_another_vpn_server.Primitives.{Primitives}
use Error.{inner_too_short, envelope_too_short, hmac_mismatch}

abbrev pub tag_len : ℕ
tag_len = 32

abbrev pub packet_id_len : ℕ
packet_id_len = 8

abbrev pub header_len : ℕ
header_len = 1 + 8 + packet_id_len

abbrev pub key_len : ℕ
key_len = 32

abbrev pub slot : ℕ
slot = 64

pub record TlsCryptKey : Type 0 where
  pub enc_cipher_key : List ℕ
  pub enc_hmac_key : List ℕ
  pub dec_cipher_key : List ℕ
  pub dec_hmac_key : List ℕ

pub from_static_key_server : List ℕ → TlsCryptKey
from_static_key_server km = record {
  enc_cipher_key = take key_len km;
  enc_hmac_key = take key_len (drop slot km);
  dec_cipher_key = take key_len (drop (slot * 2) km);
  dec_hmac_key = take key_len (drop (slot * 3) km);
}

module _ (lib : Primitives) where
  unfoldable pub wrap : TlsCryptKey → List ℕ → ℕ → ℕ → Result (List ℕ)
  wrap self inner packet_id timestamp = do
    bail_if (ltb (length inner) 9) inner_too_short
    let op = get_or inner 0 0
    let session_id = take 8 (drop 1 inner)
    let body = drop 9 inner
    let header = op ∷ (session_id ++ (to_be 4 packet_id ++ to_be 4 timestamp))
    let tag = lib.hmac_sha256 self.enc_hmac_key (header ++ body)
    let ciphertext = lib.aes_ctr self.enc_cipher_key (take 16 tag) body
    ok (header ++ (tag ++ ciphertext))

  -- The inner packet and the packet id.
  pub unwrap : TlsCryptKey → List ℕ → Result (List ℕ × ℕ)
  unwrap self pkt = do
    bail_if (ltb (length pkt) (header_len + tag_len)) envelope_too_short
    let header = take header_len pkt
    let op = get_or header 0 0
    let session_id = take 8 (drop 1 header)
    let packet_id = from_be (take 4 (drop 9 header))
    let tag = take tag_len (drop header_len pkt)
    let ciphertext = drop (header_len + tag_len) pkt
    let plaintext = lib.aes_ctr self.dec_cipher_key (take 16 tag) ciphertext
    bail_if (not (lib.verify self.dec_hmac_key (header ++ plaintext) tag)) hmac_mismatch
    ok (op ∷ (session_id ++ plaintext), packet_id)
