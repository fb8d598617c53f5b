-- ===== src/Prf.antt =====
-- src/prf.rs: the TLS 1.0 PRF and the derivation of the data-channel keys of `key-method 2`.
pub mod Hash
pub mod Length
mod Tests
use just_another_vpn_server.Prelude.{
  ℕ, zero, suc, ◌+◌, ◌-◌, ◌/◌, bit_xor, min, List, [], ◌∷◌, ◌++◌, length, take, drop, replicate,
  ltb, if◌then◌else◌,
}
use just_another_vpn_server.Primitives.{Primitives}
use just_another_vpn_server.Crypto.{keymat_len}

-- "OpenVPN master secret"
abbrev pub master_label : List ℕ
master_label =
    0x4f ∷ 0x70 ∷ 0x65 ∷ 0x6e ∷ 0x56 ∷ 0x50 ∷ 0x4e ∷ 0x20 ∷ 0x6d ∷ 0x61 ∷ 0x73 ∷ 0x74 ∷ 0x65 ∷ 0x72
    ∷ 0x20 ∷ 0x73 ∷ 0x65 ∷ 0x63 ∷ 0x72 ∷ 0x65 ∷ 0x74 ∷ []

-- "OpenVPN key expansion"
abbrev pub key_exp_label : List ℕ
key_exp_label =
    0x4f ∷ 0x70 ∷ 0x65 ∷ 0x6e ∷ 0x56 ∷ 0x50 ∷ 0x4e ∷ 0x20 ∷ 0x6b ∷ 0x65 ∷ 0x79 ∷ 0x20 ∷ 0x65 ∷ 0x78
    ∷ 0x70 ∷ 0x61 ∷ 0x6e ∷ 0x73 ∷ 0x69 ∷ 0x6f ∷ 0x6e ∷ []

-- The loop of `p_hash` with `left` bytes of the output still unwritten, that is, zero. The fuel is
-- a bound on the rounds.
pub p_hash_loop : (List ℕ → List ℕ → List ℕ) → List ℕ → List ℕ → ℕ → ℕ → List ℕ → List ℕ
p_hash_loop hmac_fn secret seed zero left a = replicate left 0
p_hash_loop hmac_fn secret seed (suc fuel) left a =
    let block = hmac_fn secret (a ++ seed) in
    let n = min (length block) left in
    let more = p_hash_loop hmac_fn secret seed fuel (left - n) (hmac_fn secret a) in
    if ltb 0 left then take n block ++ more else []

-- A round writes at least one byte, so that as many rounds as bytes are enough.
pub p_hash : (List ℕ → List ℕ → List ℕ) → List ℕ → List ℕ → ℕ → List ℕ
p_hash hmac_fn secret seed out_len =
    p_hash_loop hmac_fn secret seed out_len out_len (hmac_fn secret seed)

pub xor_bytes : List ℕ → List ℕ → List ℕ
xor_bytes [] ys = []
xor_bytes (x ∷ xs) [] = []
xor_bytes (x ∷ xs) (y ∷ ys) = bit_xor x y ∷ xor_bytes xs ys

module _ (lib : Primitives) where
  pub tls10_prf : List ℕ → List ℕ → List ℕ → ℕ → List ℕ
  tls10_prf secret label seed out_len =
      let half = (length secret + 1) / 2 in
      let s1 = take half secret in
      let s2 = drop (length secret - half) secret in
      let combined = label ++ seed in
      xor_bytes (p_hash lib.hmac_md5 s1 combined out_len) (p_hash lib.hmac_sha1 s2 combined out_len)

  pub derive_openvpn_key_data :
      List ℕ → List ℕ → List ℕ → List ℕ → List ℕ → List ℕ → List ℕ → List ℕ
  derive_openvpn_key_data pre_master client_random1 server_random1 client_random2 server_random2
        client_sid server_sid =
      let master = tls10_prf pre_master master_label (client_random1 ++ server_random1) 48 in
      let kd_seed = client_random2 ++ (server_random2 ++ (client_sid ++ server_sid)) in
      tls10_prf master key_exp_label kd_seed keymat_len
