-- ===== src/Server/Keys.antt =====
-- src/server.rs: the key of the control envelope, as `VpnServer::new` loads it.
use just_another_vpn_server.Prelude.{ℕ, Bool, List, Option, none, some, Result, ok, ◌>>=◌}
use just_another_vpn_server.StaticKey.{parse_static_key_file}
use just_another_vpn_server.TlsCrypt
use just_another_vpn_server.TlsCrypt.{TlsCryptKey}
use just_another_vpn_server.TlsAuth
use just_another_vpn_server.TlsAuth.{TlsAuthKey}

-- `UdpSocket::bind`, the text of the file with a name, and `hex::decode`.
pub record Outside : Type 0 where
  pub bind : ℕ → Bool
  pub read_to_string : ℕ → Option (List ℕ)
  pub hex_decode : List ℕ → Option (List ℕ)

-- The keys of the control envelope: at most one of the two is there.
pub record Envelopes : Type 0 where
  pub tls_crypt : Option TlsCryptKey
  pub tls_auth : Option TlsAuthKey

-- The match on the two paths: tls-crypt before tls-auth before none.
module _ (outside : Outside) where
  abbrev load_key : ℕ → Result (List ℕ)
  load_key path = parse_static_key_file outside.hex_decode (outside.read_to_string path)

  unfoldable pub load_envelopes : Option ℕ → Option ℕ → ℕ → Result Envelopes
  load_envelopes (some path) tls_auth_key direction = do
    km ← load_key path
    ok (record { tls_crypt = some (TlsCrypt.from_static_key_server km); tls_auth = none })
  load_envelopes none (some path) direction = do
    km ← load_key path
    key ← TlsAuth.from_static_key_server km direction
    ok (record { tls_crypt = none; tls_auth = some key })
  load_envelopes none none direction = ok (record { tls_crypt = none; tls_auth = none })
