-- ===== src/Config/Load.antt =====
-- src/config.rs: the defaults of the file's optional entries, and `ServerConfig::load`. Reading the
-- file and `toml::from_str` are parameters: the text, if it can be read, and its entries, if it has
-- the form of a configuration.
use just_another_vpn_server.Prelude.{
  ℕ, Bool, false, not, List, [], ◌∷◌, Option, none, some, if◌then◌else◌, Result, ok, Error, ◌>>=◌,
  ◌>>◌, bail_if, or_fail,
}
use just_another_vpn_server.Prelude.Text.{eq_ignore_ascii_case}
use just_another_vpn_server.Config.{IpAddr, ClientConfig, ServerConfig}
use Error.{read_failed, toml_failed, unsupported_cipher}

-- The entries of a file. Those with a default may be missing.
pub record Document : Type 0 where
  pub listen : ℕ
  pub listen_tcp : Option ℕ
  pub ca : ℕ
  pub cert : ℕ
  pub key : ℕ
  pub tun_name : Option (List ℕ)
  pub tun_ip : IpAddr
  pub tun_netmask : IpAddr
  pub client_pool_start : IpAddr
  pub client_pool_end : IpAddr
  pub cipher : Option (List ℕ)
  pub tun_mtu : Option ℕ
  pub push_routes : Option (List (List ℕ))
  pub push_dns : Option (List IpAddr)
  pub tun_ip6 : Option IpAddr
  pub tun_prefix6 : Option ℕ
  pub client_pool_start_v6 : Option IpAddr
  pub client_pool_end_v6 : Option IpAddr
  pub push_routes_v6 : Option (List (List ℕ))
  pub keepalive_ping : Option ℕ
  pub keepalive_timeout : Option ℕ
  pub tls_auth_key : Option ℕ
  pub tls_auth_key_direction : Option ℕ
  pub tls_crypt_key : Option ℕ
  pub enable_nat : Option Bool
  pub wan_iface : Option (List ℕ)
  pub reneg_sec : Option ℕ
  pub client_configs : Option (List (List ℕ × ClientConfig))

-- "utun9" on macOS, and "javs0"
unfoldable pub default_tun_name : Bool → List ℕ
default_tun_name macos =
    if macos then 117 ∷ 116 ∷ 117 ∷ 110 ∷ 57 ∷ [] else 106 ∷ 97 ∷ 118 ∷ 115 ∷ 48 ∷ []

-- "AES-256-GCM"
abbrev pub default_cipher : List ℕ
default_cipher = 65 ∷ 69 ∷ 83 ∷ 45 ∷ 50 ∷ 53 ∷ 54 ∷ 45 ∷ 71 ∷ 67 ∷ 77 ∷ []

abbrev pub default_mtu : ℕ
default_mtu = 1500

abbrev pub default_keepalive_ping : ℕ
default_keepalive_ping = 10

abbrev pub default_keepalive_timeout : ℕ
default_keepalive_timeout = 120

abbrev pub default_tls_auth_direction : ℕ
default_tls_auth_direction = 1

abbrev pub default_reneg_sec : ℕ
default_reneg_sec = 3600

abbrev pub default_tun_prefix6 : ℕ
default_tun_prefix6 = 64

abbrev pub or_default {ℓ} : {A : Type ℓ} → Option A → A → A
or_default none d = d
or_default (some a) d = a

unfoldable pub from_document : Bool → Document → ServerConfig
unfolding default_tun_name
from_document macos d = record {
  listen = d.listen;
  listen_tcp = d.listen_tcp;
  ca = d.ca;
  cert = d.cert;
  key = d.key;
  tun_name = or_default d.tun_name (default_tun_name macos);
  tun_ip = d.tun_ip;
  tun_netmask = d.tun_netmask;
  client_pool_start = d.client_pool_start;
  client_pool_end = d.client_pool_end;
  cipher = or_default d.cipher default_cipher;
  tun_mtu = or_default d.tun_mtu default_mtu;
  push_routes = or_default d.push_routes [];
  push_dns = or_default d.push_dns [];
  tun_ip6 = d.tun_ip6;
  tun_prefix6 = or_default d.tun_prefix6 default_tun_prefix6;
  client_pool_start_v6 = d.client_pool_start_v6;
  client_pool_end_v6 = d.client_pool_end_v6;
  push_routes_v6 = or_default d.push_routes_v6 [];
  keepalive_ping = or_default d.keepalive_ping default_keepalive_ping;
  keepalive_timeout = or_default d.keepalive_timeout default_keepalive_timeout;
  tls_auth_key = d.tls_auth_key;
  tls_auth_key_direction = or_default d.tls_auth_key_direction default_tls_auth_direction;
  tls_crypt_key = d.tls_crypt_key;
  enable_nat = or_default d.enable_nat false;
  wan_iface = d.wan_iface;
  reneg_sec = or_default d.reneg_sec default_reneg_sec;
  client_configs = or_default d.client_configs [];
}

module _ (macos : Bool) (from_str : List ℕ → Option Document) where
  unfoldable pub load : Option (List ℕ) → Result ServerConfig
  unfolding from_document
  load file = do
    text ← or_fail file read_failed
    document ← or_fail (from_str text) toml_failed
    let cfg = from_document macos document
    bail_if (not (eq_ignore_ascii_case cfg.cipher default_cipher)) unsupported_cipher
    ok cfg
