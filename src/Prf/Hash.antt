-- ===== src/Prf/Hash.antt =====
-- `p_hash` against the definition of RFC 4346, section 5.
use just_another_vpn_server.Prelude.{
  ℕ, zero, suc, ◌-◌, ◌*◌, ◌≤◌, ◌<◌, min, ◌≡◌, refl, ap, List, [], ◌++◌, length, take, arith,
  length-append, lt→ltb, take-append_min,
}
use just_another_vpn_server.Prf.{p_hash_loop, p_hash}

module _ (hmac_fn : List ℕ → List ℕ → List ℕ) (secret seed : List ℕ) where
  -- `A(i + 1) = HMAC(secret, A(i))` from `A(1) = a` on: the output of the first `k` rounds.
  abbrev pub blocks : ℕ → List ℕ → List ℕ
  blocks zero a = []
  blocks (suc k) a = hmac_fn secret (a ++ seed) ++ blocks k (hmac_fn secret a)

  module _ (m : ℕ) (positive : 0 < m)
      (sized : (msg : List ℕ) → length (hmac_fn secret msg) ≡ m) where
    pub length-blocks : (k : ℕ) (a : List ℕ) → length (blocks k a) ≡ k * m
    length-blocks zero a = omega arith
    length-blocks (suc k) a = omega (
      arith,
      length-append (hmac_fn secret (a ++ seed)) (blocks k (hmac_fn secret a)),
      sized (a ++ seed),
      length-blocks k (hmac_fn secret a),
    )

    p_hash_loop-blocks :
        (k fuel left : ℕ) (a : List ℕ)
        → left ≤ fuel
        → left ≤ k * m
        → p_hash_loop hmac_fn secret seed fuel left a ≡ take left (blocks k a)
    unfolding p_hash_loop
    p_hash_loop-blocks k zero zero a hf hk = refl
    p_hash_loop-blocks k zero (suc l) a hf hk = absurd (omega arith)
    p_hash_loop-blocks k (suc fuel) zero a hf hk = refl
    p_hash_loop-blocks zero (suc fuel) (suc l) a hf hk = absurd (omega arith)
    p_hash_loop-blocks (suc k) (suc fuel) (suc l) a hf hk =
        let block : List ℕ = hmac_fn secret (a ++ seed) in
        let n : ℕ = min (length block) (suc l) in
        rw
          (
            lt→ltb 0 (suc l) (omega arith),
            take-append_min (suc l) block (blocks k (hmac_fn secret a)),
          )
          (ap (◌++◌ (take n block)) (
            p_hash_loop-blocks k fuel (suc l - n) (hmac_fn secret a)
              (omega (arith, sized (a ++ seed))) (omega (arith, sized (a ++ seed)))))

    -- The output is the first `n` bytes of the RFC's blocks, however many of them are written down,
    -- where they have `n` bytes at least. The HMAC has tags of a fixed size that is not 0.
    pub p_hash-blocks :
        (k n : ℕ)
        → n ≤ k * m
        → p_hash hmac_fn secret seed n ≡ take n (blocks k (hmac_fn secret seed))
    unfolding p_hash
    p_hash-blocks k n h = p_hash_loop-blocks k n n (hmac_fn secret seed) (omega arith) h
