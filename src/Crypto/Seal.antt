-- ===== src/Crypto/Seal.antt =====
-- src/crypto.rs: `seal` and the other end's `open`.
use just_another_vpn_server.Prelude.{
  ℕ, ◌+◌, ◌-◌, ◌≡◌, refl, sym, ap, ◌∙◌, List, ◌++◌, length, take, drop, ok, arith, length-append,
  length-take, length-drop, take-append, drop-append, take-append-drop, le→ltb_false, ok-injective,
  some, Option-cases, inl, inr, or_fail-some, Error,
}
use just_another_vpn_server.Prelude.Bytes.{to_be, IsU32, from_be, from_be-to_be, length-to_be}
use just_another_vpn_server.Primitives.{Primitives, IsPrimitives}
use just_another_vpn_server.Crypto.{DataCipher, seal, open_wire}
use Error.{seal_failed}

-- The cipher of the other end.
abbrev pub mirror : DataCipher → DataCipher
mirror c = record { enc_key = c.dec_key; dec_key = c.enc_key; enc_iv = c.dec_iv; dec_iv = c.enc_iv }

module _ {lib : Primitives} (laws : IsPrimitives lib) where
  -- Whatever one end seals is 16 bytes longer than the plaintext, and the other end, under the same
  -- packet id and header, opens it to that plaintext.
  pub open-seal :
      (c : DataCipher) (packet_id : ℕ) (aad plaintext wire : List ℕ)
      → seal lib c packet_id aad plaintext ≡ ok wire
      → (length wire ≡ length plaintext + 16)
        × (open_wire lib (mirror c) packet_id aad wire ≡ ok plaintext)
  unfolding seal open_wire
  open-seal c packet_id aad plaintext wire h =
      let nonce : List ℕ = to_be 4 packet_id ++ c.enc_iv in
      elim (Option-cases (lib.gcm_encrypt c.enc_key nonce aad plaintext)) [
        | inl fails ↦ cc (fails)
        | inr (ct, e) ↦
            let n : ℕ = length ct - 16 in
            let len : length ct ≡ length plaintext + 16 =
              laws.length-gcm_encrypt c.enc_key nonce aad plaintext ct e in
            let h' : ok (drop n ct ++ take n ct) ≡ ok wire = rw e at h in
            let same : wire ≡ drop n ct ++ take n ct = sym (ok-injective h') in
            let l16 : length (drop n ct) ≡ 16 = omega (arith, length-drop n ct) in
            let l : length (drop n ct ++ take n ct) ≡ length plaintext + 16 =
              omega (arith, length-append (drop n ct) (take n ct), length-take n ct) in
            rw
              (
                same,
                l,
                le→ltb_false (length plaintext + 16) 16 (omega arith),
                take-append 16 (drop n ct) (take n ct) l16,
                drop-append 16 (drop n ct) (take n ct) l16,
                take-append-drop n ct,
                laws.gcm_decrypt-gcm_encrypt c.enc_key nonce aad plaintext ct e,
              )
              (refl, refl)
      ]

-- Distinct packet ids give distinct nonces under one key.
pub nonce-injective :
    (iv : List ℕ) (p q : ℕ) → IsU32 p → IsU32 q → to_be 4 p ++ iv ≡ to_be 4 q ++ iv → p ≡ q
nonce-injective iv p q hp hq e =
    let cut : to_be 4 p ≡ to_be 4 q =
      sym (take-append 4 (to_be 4 p) iv (length-to_be 4 p))
      ∙ ap (take 4) e
      ∙ take-append 4 (to_be 4 q) iv (length-to_be 4 q) in
    sym (from_be-to_be 4 p hp) ∙ ap from_be cut ∙ from_be-to_be 4 q hq

pub seal_total :
    (lib : Primitives) (c : DataCipher) (packet_id : ℕ) (aad plaintext : List ℕ)
    → ((key nonce ad msg : List ℕ) → (ct : List ℕ) × (lib.gcm_encrypt key nonce ad msg ≡ some ct))
    → (wire : List ℕ) × (seal lib c packet_id aad plaintext ≡ ok wire)
unfolding seal
seal_total lib c packet_id aad plaintext total =
    let (ct, e) = total c.enc_key (to_be 4 packet_id ++ c.enc_iv) aad plaintext in
    let n : ℕ = length ct - 16 in (drop n ct ++ take n ct, or_fail-some seal_failed _ e)
