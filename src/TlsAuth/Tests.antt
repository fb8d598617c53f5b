-- ===== src/TlsAuth/Tests.antt =====
-- The envelope's theorems at a concrete packet.
use just_another_vpn_server.Prelude.{
  ℕ, ◌≡◌, refl, List, [], ◌∷◌, ◌++◌, replicate, ok, err, Error, ◌>>=◌, arith,
}
use just_another_vpn_server.Prelude.Bytes.{to_be, from_be, IsU32}
use just_another_vpn_server.Primitives.{toy, toy-IsPrimitives}
use just_another_vpn_server.TlsAuth.{TlsAuthKey, wrap, unwrap, compute_hmac, compose_hmac_input}
use just_another_vpn_server.TlsAuth.Envelope.{mirror, unwrap-wrap_auth, wrap-unwrap_auth}

abbrev key : TlsAuthKey
key = record { out_key = replicate 64 1; in_key = replicate 64 2 }

abbrev inner : List ℕ
inner = 0x38 ∷ 1 ∷ 2 ∷ 3 ∷ 4 ∷ 5 ∷ 6 ∷ 7 ∷ 8 ∷ 0 ∷ 0 ∷ 0 ∷ 0 ∷ 9 ∷ []

abbrev enveloped : List ℕ
enveloped =
    (0x38 ∷ 1 ∷ 2 ∷ 3 ∷ 4 ∷ 5 ∷ 6 ∷ 7 ∷ 8 ∷ [])
    ++ (replicate 32 22 ++ (0 ∷ 0 ∷ 0 ∷ 7 ∷ 0 ∷ 0 ∷ 1 ∷ 0 ∷ 0 ∷ 0 ∷ 0 ∷ 0 ∷ 9 ∷ []))

wrap_run : wrap toy key inner 7 256 ≡ ok enveloped
unfolding wrap compute_hmac compose_hmac_input to_be
wrap_run = refl

unwrap_run : unwrap toy (mirror key) enveloped ≡ ok (inner, 7)
unfolding unwrap compose_hmac_input to_be from_be mirror
unwrap_run = refl

unwrap_short : unwrap toy key inner ≡ err Error.envelope_too_short
unfolding unwrap
unwrap_short = refl

unwrap-wrap_auth_example : (wrap toy key inner 7 256 >>= unwrap toy (mirror key)) ≡ ok (inner, 7)
unwrap-wrap_auth_example =
    unwrap-wrap_auth toy-IsPrimitives key inner 7 256 (omega arith) (omega arith) (omega arith)

wrap-unwrap_auth_example :
    IsU32 7 × ((ts : ℕ) × IsU32 ts × (wrap toy (mirror (mirror key)) inner 7 ts ≡ ok enveloped))
wrap-unwrap_auth_example =
    wrap-unwrap_auth toy-IsPrimitives (mirror key) enveloped inner 7 (omega arith) unwrap_run
