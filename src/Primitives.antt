-- ===== src/Primitives.antt =====
-- The cryptographic crates that the program calls (`hmac`, `aes`, `ctr`, `aes-gcm`) and
-- `String::from_utf8_lossy`, as an interface with the behaviour that their documentation gives.
use just_another_vpn_server.Prelude.{
  ℕ, ◌+◌, ◌≡◌, refl, subst, Bool, List, ◌++◌, Option, none, some, length, take, length-append, ◌-◌,
  true, take-append, replicate, list_beq, arith, if◌then◌else◌, leb,
}
use mathlib.Core.Option.{some-injective}

pub record Primitives : Type 0 where
  -- Key, then message. `verify` is `Mac::verify_slice` on the tag.
  pub hmac_sha256 : List ℕ → List ℕ → List ℕ
  pub verify : List ℕ → List ℕ → List ℕ → Bool
  pub hmac_md5 : List ℕ → List ℕ → List ℕ
  pub hmac_sha1 : List ℕ → List ℕ → List ℕ
  -- Key, initial counter block, data.
  pub aes_ctr : List ℕ → List ℕ → List ℕ → List ℕ
  -- Key, nonce, associated data, message. The ciphertext has its 16-byte tag at the end.
  pub gcm_encrypt : List ℕ → List ℕ → List ℕ → List ℕ → Option (List ℕ)
  pub gcm_decrypt : List ℕ → List ℕ → List ℕ → List ℕ → Option (List ℕ)
  pub from_utf8_lossy : List ℕ → List ℕ

pub record IsPrimitives (lib : Primitives) : Type 0 where
  pub length-hmac_sha256 : (key msg : List ℕ) → length (lib.hmac_sha256 key msg) ≡ 32
  pub length-hmac_md5 : (key msg : List ℕ) → length (lib.hmac_md5 key msg) ≡ 16
  pub length-hmac_sha1 : (key msg : List ℕ) → length (lib.hmac_sha1 key msg) ≡ 20
  -- A tag verifies exactly if it is the tag of the message.
  pub verify_eq :
      (key msg tag : List ℕ) → lib.verify key msg tag ≡ list_beq (lib.hmac_sha256 key msg) tag
  -- Counter mode adds a key stream, so that it undoes itself.
  pub aes_ctr_twice : (key iv msg : List ℕ) → lib.aes_ctr key iv (lib.aes_ctr key iv msg) ≡ msg
  pub length-aes_ctr : (key iv msg : List ℕ) → length (lib.aes_ctr key iv msg) ≡ length msg
  pub length-gcm_encrypt :
      (key nonce aad msg ct : List ℕ)
      → lib.gcm_encrypt key nonce aad msg ≡ some ct
      → length ct ≡ length msg + 16
  pub gcm_decrypt-gcm_encrypt :
      (key nonce aad msg ct : List ℕ)
      → lib.gcm_encrypt key nonce aad msg ≡ some ct
      → lib.gcm_decrypt key nonce aad ct ≡ some msg

-- Functions with that behaviour, which hide nothing: constant tags and the empty key stream.
abbrev pub toy_tag : List ℕ
toy_tag = replicate 16 0

abbrev pub toy_open : List ℕ → Option (List ℕ)
toy_open ct = if leb 16 (length ct) then some (take (length ct - 16) ct) else none

abbrev pub toy : Primitives
toy = record {
  hmac_sha256 = λ key msg. replicate 32 (length msg);
  verify = λ key msg tag. list_beq (replicate 32 (length msg)) tag;
  hmac_md5 = λ key msg. replicate 16 1;
  hmac_sha1 = λ key msg. replicate 20 2;
  aes_ctr = λ key iv msg. msg;
  gcm_encrypt = λ key nonce aad msg. some (msg ++ toy_tag);
  gcm_decrypt = λ key nonce aad ct. toy_open ct;
  from_utf8_lossy = λ bytes. bytes;
}

toy_decrypt : (msg : List ℕ) → toy_open (msg ++ toy_tag) ≡ some msg
toy_decrypt msg =
    let l : length (msg ++ toy_tag) ≡ length msg + 16 = length-append msg toy_tag in
    let e : length msg + 16 - 16 ≡ length msg = omega arith in
    let t : leb 16 (length msg + 16) ≡ true = ground arith in
    rw (l, e, t, take-append (length msg) msg toy_tag refl)

pub toy-IsPrimitives : IsPrimitives toy
toy-IsPrimitives = record {
  length-hmac_sha256 = λ key msg. refl;
  length-hmac_md5 = λ key msg. refl;
  length-hmac_sha1 = λ key msg. refl;
  verify_eq = λ key msg tag. refl;
  aes_ctr_twice = λ key iv msg. refl;
  length-aes_ctr = λ key iv msg. refl;
  length-gcm_encrypt = λ key nonce aad msg ct e. ground (arith, length-append msg toy_tag);
  gcm_decrypt-gcm_encrypt = λ key nonce aad msg ct e.
      subst (λ c. toy_open c ≡ some msg) (some-injective _ _ e) (toy_decrypt msg);
}
