-- ===== src/Server/Pool.antt =====
-- src/server.rs: the address pools. The guard is the next address to hand out.
use just_another_vpn_server.Prelude.{
  ℕ, ◌+◌, ◌%◌, ◌^◌, Option, none, some, ltb, if◌then◌else◌, Result, ok, err, Error,
}
use just_another_vpn_server.Prelude.Steps.{Step}
use just_another_vpn_server.Server.{VpnServer}
use Error.{pool_exhausted, pool_v6_exhausted}

module _ {Conn : Type 0} where
  unfoldable pub allocate_ip : Step (VpnServer Conn) ℕ
  allocate_ip self =
      let ip = self.next_pool_ip in
      if ltb self.pool_end ip
      then (err pool_exhausted, self)
      else (ok ip, record self { next_pool_ip = (ip + 1) % 2 ^ 32 })

  abbrev pub allocate_from : VpnServer Conn → Option ℕ → Result (Option ℕ) × VpnServer Conn
  allocate_from self none = (ok none, self)
  allocate_from self (some ip) =
      if ltb self.pool_end_v6 ip
      then (err pool_v6_exhausted, self)
      else (ok (some ip), record self { next_pool_ip_v6 = some ((ip + 1) % 2 ^ 128) })

  unfoldable pub allocate_ip_v6 : Step (VpnServer Conn) (Option ℕ)
  allocate_ip_v6 self = allocate_from self self.next_pool_ip_v6
