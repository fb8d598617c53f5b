-- ===== src/Crypto.antt =====
-- src/crypto.rs: the data channel's AES-256-GCM, with the tag in front of the ciphertext on the wire.
pub mod Seal
mod Tests
use just_another_vpn_server.Prelude.{
  ℕ, ◌-◌, ◌*◌, List, ◌++◌, length, take, drop, ltb, Result, ok, Error, ◌>>=◌, ◌>>◌, bail_if,
  or_fail,
}
use just_another_vpn_server.Prelude.Bytes.{to_be}
use just_another_vpn_server.Primitives.{Primitives}
use Error.{seal_failed, short_ciphertext, open_failed}

abbrev pub key_size : ℕ
key_size = 32

abbrev pub implicit_iv_size : ℕ
implicit_iv_size = 8

abbrev pub tag_size : ℕ
tag_size = 16

abbrev pub keymat_len : ℕ
keymat_len = 256

abbrev pub slot : ℕ
slot = 64

pub record DataCipher : Type 0 where
  pub enc_key : List ℕ
  pub dec_key : List ℕ
  pub enc_iv : List ℕ
  pub dec_iv : List ℕ

unfoldable pub from_keymat_server : List ℕ → DataCipher
from_keymat_server km =
    let client_enc = take key_size km in
    let client_iv = take implicit_iv_size (drop slot km) in
    let server_enc = take key_size (drop (slot * 2) km) in
    let server_iv = take implicit_iv_size (drop (slot * 3) km) in
    record { enc_key = server_enc; dec_key = client_enc; enc_iv = server_iv; dec_iv = client_iv }

module _ (lib : Primitives) where
  unfoldable pub seal : DataCipher → ℕ → List ℕ → List ℕ → Result (List ℕ)
  seal self packet_id aad plaintext = do
    let nonce = to_be 4 packet_id ++ self.enc_iv
    ct_then_tag ← or_fail (lib.gcm_encrypt self.enc_key nonce aad plaintext) seal_failed
    let split = length ct_then_tag - tag_size
    ok (drop split ct_then_tag ++ take split ct_then_tag)

  -- `open` in the source.
  unfoldable pub open_wire : DataCipher → ℕ → List ℕ → List ℕ → Result (List ℕ)
  open_wire self packet_id aad wire = do
    bail_if (ltb (length wire) tag_size) short_ciphertext
    let tag = take tag_size wire
    let ct = drop tag_size wire
    let nonce = to_be 4 packet_id ++ self.dec_iv
    or_fail (lib.gcm_decrypt self.dec_key nonce aad (ct ++ tag)) open_failed
