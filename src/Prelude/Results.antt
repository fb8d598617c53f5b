-- ===== src/Prelude/Results.antt =====
-- `anyhow::Result`: the reason of a failure is a constructor in place of a message.
use mathlib.Core.Path.{◌≡◌, refl, ap}
use mathlib.Core.Bool.{Bool, true, false}
use mathlib.Core.Option.{Option, none, some}
use mathlib.Core.Logic.{◌⊎◌, inl, inr}

-- The `bail!` and `context` texts of the program.
pub data Error : Type 0 where
  empty_packet unknown_opcode not_control missing_session_id missing_ack_count : Error
  truncated_acks missing_remote_session_id missing_packet_id data_too_short not_data_v2 : Error
  bad_zero_prefix unsupported_key_method : Error
  bad_key_length bad_hex bad_direction inner_too_short envelope_too_short hmac_mismatch : Error
  seal_failed short_ciphertext open_failed no_active_slot no_key_slot replay_rejected : Error
  missing_pre_master missing_random1 missing_random2 : Error
  tls_failed send_failed pool_exhausted pool_v6_exhausted static_ip_in_use v6_unsupported : Error
  writer_closed : Error
  read_failed write_failed spawn_failed iptables_failed no_default_route : Error
  bind_failed toml_failed unsupported_cipher pool_start_not_v4 pool_end_not_v4 v6_pool_missing :
      Error
  tun_ip_not_v4 tun_netmask_not_v4 : Error
  cert_file_failed bad_pem no_certificates bad_private_key no_private_key bad_ca bad_verifier :
      Error
  bad_server_cert bad_certificate tun_failed ip_failed : Error

pub data Result {ℓ} (A : Type ℓ) : Type ℓ where
  ok : A → Result A
  err : Error → Result A

-- `?`: a failure ends the function.
abbrev pub ◌>>=◌ {ℓ κ} : {A : Type ℓ} {B : Type κ} → Result A → (A → Result B) → Result B
err reason >>= rest = err reason
ok value >>= rest = rest value

-- `?` on a call that is made for its failures.
abbrev pub ◌>>◌ {ℓ} : {B : Type ℓ} → Result (Unit {0}) → Result B → Result B
err reason >> rest = err reason
ok u >> rest = rest

infixl 5 ◌>>=◌ ◌>>◌
-- `if test { bail!(e) }`
abbrev pub bail_if : Bool → Error → Result (Unit {0})
bail_if true e = err e
bail_if false e = ok tt

-- `.ok_or_else` and `.context(..)?`
abbrev pub or_fail {ℓ} : {A : Type ℓ} → Option A → Error → Result A
or_fail none e = err e
or_fail (some a) e = ok a

-- Either the call failed, or it has a value.
pub Result-cases {ℓ} :
    {A : Type ℓ} (outcome : Result A)
    → ((value : A) × (outcome ≡ ok value)) ⊎ ((reason : Error) × (outcome ≡ err reason))
Result-cases (err reason) = inr (reason, refl)
Result-cases (ok value) = inl (value, refl)

-- A chain that succeeds: what its first call returned, and that the rest succeeds on it.
pub >>=-eq-ok {ℓ κ} :
    {A : Type ℓ} {B : Type κ} (call : Result A) (rest : A → Result B) {final : B}
    → (call >>= rest) ≡ ok final
    → (value : A) × (call ≡ ok value) × (rest value ≡ ok final)
>>=-eq-ok (err reason) rest h = cc
>>=-eq-ok (ok value) rest h = (value, refl, h)

pub bail_if-eq-ok {ℓ} :
    {A : Type ℓ} (test : Bool) (e : Error) (k : Result A) {a : A}
    → (bail_if test e >> k) ≡ ok a
    → (test ≡ false) × (k ≡ ok a)
bail_if-eq-ok true e k h = cc
bail_if-eq-ok false e k h = (refl, h)

abbrev ok_or {ℓ} : {A : Type ℓ} → A → Result A → A
ok_or d (ok a) = a
ok_or d (err e) = d

pub ok-injective {ℓ} : {A : Type ℓ} {a b : A} → ok a ≡ ok b → a ≡ b
ok-injective {a} e = ap (ok_or a) e

pub or_fail-some {ℓ κ} :
    {A : Type ℓ} {B : Type κ} {o : Option A} (e : Error) (f : A → Result B) {a : A}
    → o ≡ some a
    → (or_fail o e >>= f) ≡ f a
or_fail-some e f h = ap (λ o. or_fail o e >>= f) h
