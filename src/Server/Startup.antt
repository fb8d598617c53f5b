-- ===== src/Server/Startup.antt =====
-- src/server.rs: `VpnServer::new`. Sockets and files are what the start-up takes from outside; NAT
-- changes the host.
use just_another_vpn_server.Prelude.{
  ℕ, List, [], Option, none, some, if◌then◌else◌, Result, ok, err, Error, not,
}
use just_another_vpn_server.Prelude.Steps.{Step, ◌>>=◌, ◌>>◌, lift, pure, bail_when}
use just_another_vpn_server.Config.{ServerConfig, IpAddr, v4, v6}
use just_another_vpn_server.Nat.{Kernel, NatGuard, enable_masquerade}
use just_another_vpn_server.Nat.Routes.{detect_default_route_iface}
use just_another_vpn_server.Server.{VpnServer}
use just_another_vpn_server.Server.Certs.{Pki, build_server_config}
use just_another_vpn_server.Server.Keys.{Outside, Envelopes, load_envelopes}
use Error.{
  bind_failed, pool_start_not_v4, pool_end_not_v4, v6_pool_missing, tun_ip_not_v4,
  tun_netmask_not_v4,
}

pub record Started (Conn TlsConfig : Type 0) : Type 0 where
  pub tls_cfg : TlsConfig
  pub server : VpnServer Conn
  pub nat_guard : Option NatGuard

unfoldable pub expect_v4 : IpAddr → Error → Result ℕ
expect_v4 (v4 ip) e = ok ip
expect_v4 (v6 ip) e = err e

-- The next address and the last one.
unfoldable pub pool_v6 :
    Option IpAddr → Option IpAddr → Option IpAddr → Result (Option ℕ × Option ℕ)
pool_v6 none first last = ok (none, none)
pool_v6 (some ip) (some (v6 s)) (some (v6 e)) = ok (some s, some e)
pool_v6 (some ip) first last = err v6_pool_missing

abbrev pub or_zero : Option ℕ → ℕ
or_zero none = 0
or_zero (some n) = n

-- The last address of the IPv6 pool is read only where there is a next one.
abbrev pub make_server :
    {Conn : Type 0} → ServerConfig → Envelopes → ℕ → ℕ → Option ℕ × Option ℕ → VpnServer Conn
make_server cfg keys pool_start pool_end v6_pool = record {
  cfg = cfg;
  sessions = [];
  routes = [];
  routes_v6 = [];
  peers = [];
  next_peer_id = 1;
  next_pool_ip = pool_start;
  pool_end = pool_end;
  next_pool_ip_v6 = v6_pool.0;
  pool_end_v6 = or_zero v6_pool.1;
  data_routes = [];
  tls_crypt = keys.tls_crypt;
  tls_auth = keys.tls_auth;
  sent = [];
  queued = [];
  tun_out = [];
}

module _ {H : Type 0} (host : Kernel H) where
  -- The interface that is configured, or else the one of the default route.
  unfoldable pub wan_of : Option (List ℕ) → Step H (List ℕ)
  wan_of (some s) h = (ok s, h)
  wan_of none h = (detect_default_route_iface (host.read_routes h), h)

  unfoldable pub install_nat : ServerConfig → Step H (Option NatGuard)
  unfolding wan_of
  install_nat cfg = do
    wan ← wan_of cfg.wan_iface
    tun_ip_v4 ← lift (expect_v4 cfg.tun_ip tun_ip_not_v4)
    tun_mask_v4 ← lift (expect_v4 cfg.tun_netmask tun_netmask_not_v4)
    guard ← enable_masquerade host cfg.tun_name wan tun_ip_v4 tun_mask_v4
    pure (some guard)

  unfoldable pub start_nat : ServerConfig → Step H (Option NatGuard)
  unfolding install_nat
  start_nat cfg = if cfg.enable_nat then install_nat cfg else pure none

  module _ {Conn Roots Verifier TlsConfig : Type 0} (pki : Pki Roots Verifier TlsConfig)
      (outside : Outside) where
    unfoldable pub new : ServerConfig → Step H (Started Conn TlsConfig)
    unfolding start_nat
    new cfg = do
      bail_when (not (outside.bind cfg.listen)) bind_failed
      tls_cfg ← lift (build_server_config pki cfg.ca cfg.cert cfg.key)
      keys ←
          lift
            (load_envelopes outside cfg.tls_crypt_key cfg.tls_auth_key cfg.tls_auth_key_direction)
      pool_start ← lift (expect_v4 cfg.client_pool_start pool_start_not_v4)
      pool_end ← lift (expect_v4 cfg.client_pool_end pool_end_not_v4)
      v6_pool ← lift (pool_v6 cfg.tun_ip6 cfg.client_pool_start_v6 cfg.client_pool_end_v6)
      nat_guard ← start_nat cfg
      pure (record {
        tls_cfg = tls_cfg;
        server = make_server cfg keys pool_start pool_end v6_pool;
        nat_guard = nat_guard;
      })
