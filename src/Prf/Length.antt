-- ===== src/Prf/Length.antt =====
-- The derived key material: its length, and the keys that the two ends take from it.
use just_another_vpn_server.Prelude.{
  ℕ, ◌*◌, ◌≤◌, ◌<◌, min, ◌≡◌, List, [], ◌∷◌, length, take, arith, length-take, drop,
}
use just_another_vpn_server.Primitives.{Primitives, IsPrimitives}
use just_another_vpn_server.Prf.{p_hash, xor_bytes, tls10_prf}
use just_another_vpn_server.Prf.Hash.{blocks, p_hash-blocks, length-blocks}
use just_another_vpn_server.Crypto.{DataCipher}

-- The keys of a client: those for what it sends come first, and those for what it receives behind
-- them, each a key in 64 bytes and the implicit IV in the 64 bytes that follow.
abbrev pub client_cipher : List ℕ → DataCipher
client_cipher km = record {
  enc_key = take 32 km;
  enc_iv = take 8 (drop 64 km);
  dec_key = take 32 (drop 128 km);
  dec_iv = take 8 (drop 192 km);
}

length-p_hash :
    (hmac_fn : List ℕ → List ℕ → List ℕ) (secret seed : List ℕ) (m n : ℕ)
    → 0 < m
    → ((msg : List ℕ) → length (hmac_fn secret msg) ≡ m)
    → length (p_hash hmac_fn secret seed n) ≡ n
length-p_hash hmac_fn secret seed m n h sized =
    let a : List ℕ = hmac_fn secret seed in
    let room : n ≤ n * m = grind arith in
    rw (p_hash-blocks hmac_fn secret seed m h sized n n room) (
      omega (
        arith,
        room,
        length-take n (blocks hmac_fn secret seed n a),
        length-blocks hmac_fn secret seed m h sized n a,
      ))

length-xor_bytes : (xs ys : List ℕ) → length (xor_bytes xs ys) ≡ min (length xs) (length ys)
unfolding xor_bytes
length-xor_bytes [] ys = omega arith
length-xor_bytes (x ∷ xs) [] = omega arith
length-xor_bytes (x ∷ xs) (y ∷ ys) = omega (arith, length-xor_bytes xs ys)

module _ {lib : Primitives} (laws : IsPrimitives lib) where
  -- The PRF fills its output, whatever the length asked for.
  pub length-tls10_prf :
      (secret label seed : List ℕ) (n : ℕ) → length (tls10_prf lib secret label seed n) ≡ n
  unfolding tls10_prf
  length-tls10_prf secret label seed n = omega (
    arith,
    length-xor_bytes (p_hash lib.hmac_md5 _ _ n) (p_hash lib.hmac_sha1 _ _ n),
    length-p_hash lib.hmac_md5 _ _ 16 n (omega arith) (laws.length-hmac_md5 _),
    length-p_hash lib.hmac_sha1 _ _ 20 n (omega arith) (laws.length-hmac_sha1 _),
  )
