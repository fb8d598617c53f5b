-- ===== src/Crypto/Tests.antt =====
-- The theorem on the cipher at a concrete packet.
use just_another_vpn_server.Prelude.{
  ℕ, ◌≡◌, refl, List, [], ◌∷◌, ◌++◌, ◌+◌, replicate, length, ok, err, Error,
}
use just_another_vpn_server.Prelude.Bytes.{to_be}
use just_another_vpn_server.Primitives.{toy, toy-IsPrimitives}
use just_another_vpn_server.Crypto.{DataCipher, seal, open_wire}
use just_another_vpn_server.Crypto.Seal.{mirror, open-seal}

abbrev cipher : DataCipher
cipher = record {
  enc_key = replicate 32 1;
  dec_key = replicate 32 2;
  enc_iv = replicate 8 3;
  dec_iv = replicate 8 4;
}

abbrev wire : List ℕ
wire = replicate 16 0 ++ 5 ∷ 6 ∷ 7 ∷ []

seal_run : seal toy cipher 1 [] (5 ∷ 6 ∷ 7 ∷ []) ≡ ok wire
unfolding seal to_be
seal_run = refl

open_short : open_wire toy cipher 1 [] (5 ∷ 6 ∷ 7 ∷ []) ≡ err Error.short_ciphertext
unfolding open_wire
open_short = refl

open-seal_example :
    (length wire ≡ 3 + 16) × (open_wire toy (mirror cipher) 1 [] wire ≡ ok (5 ∷ 6 ∷ 7 ∷ []))
open-seal_example = open-seal toy-IsPrimitives cipher 1 [] (5 ∷ 6 ∷ 7 ∷ []) wire seal_run
