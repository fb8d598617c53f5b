-- ===== src/Server/Fixtures.antt =====
-- Concrete values for the tests of the server: a configuration, a connection that does nothing, an
-- environment, sessions and a server.
use just_another_vpn_server.Prelude.{ℕ, true, false, [], ◌∷◌, none, some, replicate, length, ok}
use just_another_vpn_server.Prelude.Bytes.{buf}
use just_another_vpn_server.Primitives.{toy}
use just_another_vpn_server.TlsCrypt.{TlsCryptKey}
use just_another_vpn_server.Config.{ServerConfig, v4}
use just_another_vpn_server.Session
use just_another_vpn_server.Session.{udp}
use just_another_vpn_server.Server.{Rustls, Env, VpnServer}

abbrev pub cfg : ServerConfig
cfg = record {
  listen = 1;
  listen_tcp = none;
  ca = 2;
  cert = 3;
  key = 4;
  tun_name = [];
  tun_ip = v4 0x0a080001;
  tun_netmask = v4 0xffffff00;
  client_pool_start = v4 0x0a080002;
  client_pool_end = v4 0x0a080004;
  cipher = [];
  tun_mtu = 1500;
  push_routes = [];
  push_dns = [];
  tun_ip6 = none;
  tun_prefix6 = 64;
  client_pool_start_v6 = none;
  client_pool_end_v6 = none;
  push_routes_v6 = [];
  keepalive_ping = 10;
  keepalive_timeout = 120;
  tls_auth_key = none;
  tls_auth_key_direction = 1;
  tls_crypt_key = none;
  enable_nat = false;
  wan_iface = none;
  reneg_sec = 3600;
  client_configs = [];
}

-- A connection that is a counter and does nothing.
abbrev pub idle : Rustls ℕ
idle = record {
  accept = ok 0;
  read_tls = λ c bytes. (ok (length bytes), c);
  process_new_packets = λ c. (ok tt, c);
  read = λ c. (none, c);
  reads = λ c. 0;
  write_tls = λ c. ([], c);
  is_handshaking = λ c. true;
  write_all = λ c bytes. (ok tt, c);
  peer_certificates = λ c. none;
  from_der = λ bytes. none;
}

abbrev pub env : Env ℕ
env = record {
  bytes = buf;
  crypto = toy;
  rustls = idle;
  now = 1000;
  unix_timestamp = 256;
  random_session_id = 42;
  random1 = replicate 32 1;
  random2 = replicate 32 2;
  accepts = λ to wire. true;
  show_v6 = λ ip. [];
}

abbrev pub S : Type 0
S = Session.Session ℕ

abbrev pub blank : S
blank = Session.new 42 (record { conn = 0; plaintext_in = [] }) 5 (udp 9) [] [] 100

abbrev pub leased : S
leased = record blank { assigned_ip = some 0x0a080002; assigned_ip_v6 = some 7 }

abbrev pub crypt_key : TlsCryptKey
crypt_key = record {
  enc_cipher_key = replicate 32 1;
  enc_hmac_key = replicate 32 2;
  dec_cipher_key = replicate 32 3;
  dec_hmac_key = replicate 32 4;
}

abbrev pub server : VpnServer ℕ
server = record {
  cfg = cfg;
  sessions = (9, leased) ∷ (8, blank) ∷ [];
  routes = (0x0a080002, 9) ∷ [];
  routes_v6 = (7, 9) ∷ [];
  peers = (5, 9) ∷ [];
  next_peer_id = 6;
  next_pool_ip = 0x0a080003;
  pool_end = 0x0a080004;
  next_pool_ip_v6 = none;
  pool_end_v6 = 0;
  data_routes = (5, 9) ∷ (4, 8) ∷ [];
  tls_crypt = some crypt_key;
  tls_auth = none;
  sent = [];
  queued = [];
  tun_out = [];
}
