-- ===== src/Config.antt =====
-- src/config.rs: the configuration. A string is its bytes, a path and a socket address are numbers
-- that name them.
pub mod Load
use just_another_vpn_server.Prelude.{
  ℕ, Bool, List, [], ◌∷◌, Option, none, some, if◌then◌else◌, list_beq,
}

pub data IpAddr : Type 0 where
  v4 : ℕ → IpAddr
  v6 : ℕ → IpAddr

pub record ClientConfig : Type 0 where
  pub assign_ip : Option IpAddr
  pub push_routes : List (List ℕ)

-- `client_configs` is an association list from common names.
pub record ServerConfig : Type 0 where
  pub listen : ℕ
  pub listen_tcp : Option ℕ
  pub ca : ℕ
  pub cert : ℕ
  pub key : ℕ
  pub tun_name : List ℕ
  pub tun_ip : IpAddr
  pub tun_netmask : IpAddr
  pub client_pool_start : IpAddr
  pub client_pool_end : IpAddr
  pub cipher : List ℕ
  pub tun_mtu : ℕ
  pub push_routes : List (List ℕ)
  pub push_dns : List IpAddr
  pub tun_ip6 : Option IpAddr
  pub tun_prefix6 : ℕ
  pub client_pool_start_v6 : Option IpAddr
  pub client_pool_end_v6 : Option IpAddr
  pub push_routes_v6 : List (List ℕ)
  pub keepalive_ping : ℕ
  pub keepalive_timeout : ℕ
  pub tls_auth_key : Option ℕ
  pub tls_auth_key_direction : ℕ
  pub tls_crypt_key : Option ℕ
  pub enable_nat : Bool
  pub wan_iface : Option (List ℕ)
  pub reneg_sec : ℕ
  pub client_configs : List (List ℕ × ClientConfig)

-- `client_configs.get(cn)`
abbrev pub client_config : List (List ℕ × ClientConfig) → List ℕ → Option ClientConfig
client_config [] cn = none
client_config (e ∷ m) cn = if list_beq e.0 cn then some e.1 else client_config m cn
