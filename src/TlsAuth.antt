-- ===== src/TlsAuth.antt =====
-- src/tls_auth.rs: the `--tls-auth` envelope, an HMAC over each control packet and a replay id.
pub mod Envelope
mod Tests
use just_another_vpn_server.Prelude.{
  ℕ, ◌+◌, ◌*◌, List, [], ◌∷◌, ◌++◌, length, take, drop, get_or, not, ltb, ◌==◌, if◌then◌else◌,
  Result, ok, err, Error, ◌>>=◌, ◌>>◌, bail_if,
}
use just_another_vpn_server.Prelude.Bytes.{to_be, from_be}
use just_another_vpn_server.Primitives.{Primitives}
use Error.{bad_direction, inner_too_short, envelope_too_short, hmac_mismatch}

abbrev pub hmac_len : ℕ
hmac_len = 32

abbrev pub slot_len : ℕ
slot_len = 64

abbrev pub header_len : ℕ
header_len = 9

abbrev pub replay_header_len : ℕ
replay_header_len = 8

pub record TlsAuthKey : Type 0 where
  pub out_key : List ℕ
  pub in_key : List ℕ

pub from_static_key_server : List ℕ → ℕ → Result TlsAuthKey
from_static_key_server km direction =
    if direction == 0
    then keys slot_len slot_len
    else if direction == 1
    then keys (slot_len * 3) slot_len
    else err bad_direction
  where
    keys : ℕ → ℕ → Result TlsAuthKey
    keys out_off in_off = ok (record {
      out_key = take slot_len (drop out_off km);
      in_key = take slot_len (drop in_off km);
    })

pub compose_hmac_input : ℕ → List ℕ → ℕ → ℕ → List ℕ → List ℕ
compose_hmac_input op session_id replay_pid timestamp body =
    to_be 4 replay_pid ++ (to_be 4 timestamp ++ (op ∷ (session_id ++ body)))

module _ (lib : Primitives) where
  pub compute_hmac : List ℕ → ℕ → List ℕ → ℕ → ℕ → List ℕ → List ℕ
  compute_hmac key op session_id replay_pid timestamp body =
      lib.hmac_sha256 key (compose_hmac_input op session_id replay_pid timestamp body)

  pub wrap : TlsAuthKey → List ℕ → ℕ → ℕ → Result (List ℕ)
  wrap self inner replay_pid timestamp = do
    bail_if (ltb (length inner) header_len) inner_too_short
    let op = get_or inner 0 0
    let session_id = take 8 (drop 1 inner)
    let body = drop header_len inner
    let hmac = compute_hmac self.out_key op session_id replay_pid timestamp body
    ok (op ∷ (session_id ++ (hmac ++ (to_be 4 replay_pid ++ (to_be 4 timestamp ++ body)))))

  -- The inner packet and the replay id.
  pub unwrap : TlsAuthKey → List ℕ → Result (List ℕ × ℕ)
  unwrap self pkt = do
    bail_if (ltb (length pkt) (header_len + hmac_len + replay_header_len)) envelope_too_short
    let op = get_or pkt 0 0
    let session_id = take 8 (drop 1 pkt)
    let hmac_recv = take hmac_len (drop header_len pkt)
    let replay_pid = from_be (take 4 (drop 41 pkt))
    let timestamp = from_be (take 4 (drop 45 pkt))
    let body = drop 49 pkt
    let input = compose_hmac_input op session_id replay_pid timestamp body
    bail_if (not (lib.verify self.in_key input hmac_recv)) hmac_mismatch
    ok (op ∷ (session_id ++ body), replay_pid)
