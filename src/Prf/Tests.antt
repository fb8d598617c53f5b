-- ===== src/Prf/Tests.antt =====
-- The theorems of the key derivation at concrete inputs.
use just_another_vpn_server.Prelude.{
  ℕ, ◌≡◌, refl, List, [], ◌∷◌, ◌++◌, replicate, length, take, arith,
}
use just_another_vpn_server.Primitives.{toy}
use just_another_vpn_server.Prf.{p_hash, p_hash_loop, derive_openvpn_key_data}
use just_another_vpn_server.Prf.Hash.{blocks, p_hash-blocks}

abbrev last_two : List ℕ → List ℕ → List ℕ
last_two secret msg = length secret ∷ length msg ∷ []

p_hash_run : p_hash last_two (7 ∷ []) (1 ∷ 2 ∷ 3 ∷ []) 5 ≡ 1 ∷ 5 ∷ 1 ∷ 5 ∷ 1 ∷ []
unfolding p_hash p_hash_loop
p_hash_run = refl

p_hash-blocks_example :
    p_hash last_two (7 ∷ []) (1 ∷ 2 ∷ 3 ∷ []) 5
    ≡ take 5 (blocks last_two (7 ∷ []) (1 ∷ 2 ∷ 3 ∷ []) 3 (1 ∷ 3 ∷ []))
p_hash-blocks_example =
    p_hash-blocks last_two (7 ∷ []) (1 ∷ 2 ∷ 3 ∷ []) 2 (omega arith) (λ msg. refl) 3 5 (omega arith)

abbrev km : List ℕ
km = derive_openvpn_key_data toy (replicate 48 1) [] [] [] [] (replicate 8 5) (replicate 8 6)

-- "hi" behind its tag, in both directions.
abbrev sealed : List ℕ
sealed = replicate 16 0 ++ 104 ∷ 105 ∷ []
