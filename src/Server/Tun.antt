-- ===== src/Server/Tun.antt =====
-- src/tun_dev.rs and the parts of `run` in src/server.rs that bring the TUN device up and write to
-- it. The device and the `ip` command belong to a host with states of a type `H`.
use just_another_vpn_server.Prelude.{
  ℕ, ◌/◌, ◌^◌, ◌≡◌, refl, ap, Bool, true, false, List, [], ◌∷◌, ◌++◌, Option, none, some, ◌==◌,
  ◌||◌, if◌then◌else◌, retain, Bool-cases, inl, inr, Result, ok, err, Error,
}
use just_another_vpn_server.Prelude.Steps.{Step, ◌>>◌, done}
use just_another_vpn_server.ControlChannel.Announce.{decimal}
use just_another_vpn_server.Config.{ServerConfig, IpAddr, v4, v6}
use Error.{tun_failed, ip_failed, spawn_failed}

-- `tun::create_as_async` for a name, an address, a netmask and an MTU; and `ip` with its arguments:
-- `none` where it does not run, and else whether its exit status is success.
pub record TunHost (H : Type 0) : Type 0 where
  pub create_as_async : List ℕ → IpAddr → IpAddr → ℕ → H → Bool × H
  pub ip_output : List (List ℕ) → H → Option Bool × H
  pub show_v6 : ℕ → List ℕ

abbrev created : {H : Type 0} → Bool × H → Result (Unit {0}) × H
created (true, h) = (ok tt, h)
created (false, h) = (err tun_failed, h)

abbrev ip_outcome : {H : Type 0} → Option Bool × H → Result (Unit {0}) × H
ip_outcome (none, h) = (err spawn_failed, h)
ip_outcome (some false, h) = (err ip_failed, h)
ip_outcome (some true, h) = (ok tt, h)

-- "-6", "addr", "add", the address with its prefix, "dev", the interface
abbrev add_words : List ℕ → List ℕ → List (List ℕ)
add_words cidr iface =
    (45 ∷ 54 ∷ [])
    ∷ (97 ∷ 100 ∷ 100 ∷ 114 ∷ [])
    ∷ (97 ∷ 100 ∷ 100 ∷ [])
    ∷ cidr
    ∷ (100 ∷ 101 ∷ 118 ∷ [])
    ∷ iface
    ∷ []

module _ {H : Type 0} (host : TunHost H) where
  unfoldable pub create : List ℕ → IpAddr → IpAddr → ℕ → Step H (Unit {0})
  create name ip netmask mtu h = created (host.create_as_async name ip netmask mtu h)

  unfoldable pub add_ipv6 : List ℕ → ℕ → ℕ → Step H (Unit {0})
  add_ipv6 iface addr prefix h =
      let cidr = host.show_v6 addr ++ 47 ∷ decimal prefix in
      ip_outcome (host.ip_output (add_words cidr iface) h)

  abbrev attach_v6 : ServerConfig → Option IpAddr → Step H (Unit {0})
  attach_v6 cfg none = done
  attach_v6 cfg (some (v4 ip)) = done
  attach_v6 cfg (some (v6 ip)) = add_ipv6 cfg.tun_name ip cfg.tun_prefix6

  -- The first steps of `run`.
  unfoldable pub bring_up : ServerConfig → Step H (Unit {0})
  unfolding create add_ipv6
  bring_up cfg =
      create cfg.tun_name cfg.tun_ip cfg.tun_netmask cfg.tun_mtu >> attach_v6 cfg cfg.tun_ip6

-- `pkt.first().map(|b| b >> 4)` is 4 or 6.
unfoldable pub is_ip : List ℕ → Bool
is_ip [] = false
is_ip (b ∷ bs) = (b / 2 ^ 4 == 4) || (b / 2 ^ 4 == 6)

-- The writer task: what it has written to the device when its queue is closed or a write fails.
unfoldable pub write_tun : (List ℕ → Bool) → List (List ℕ) → List (List ℕ)
unfolding is_ip
write_tun accepts [] = []
write_tun accepts (pkt ∷ more) =
    let rest = write_tun accepts more in
    if is_ip pkt then (if accepts pkt then pkt ∷ rest else []) else rest

-- While no write fails, the device gets the IP packets of the queue, in their order.
write_tun-retain :
    (accepts : List ℕ → Bool) (pkts : List (List ℕ))
    → ((pkt : List ℕ) → accepts pkt ≡ true)
    → write_tun accepts pkts ≡ retain is_ip pkts
unfolding write_tun
write_tun-retain accepts [] h = refl
write_tun-retain accepts (pkt ∷ more) h = elim (Bool-cases (is_ip pkt)) [
  | inl t ↦ rw (t, h pkt) (ap (λ rest. pkt ∷ rest) (write_tun-retain accepts more h))
  | inr t ↦ rw t (write_tun-retain accepts more h)
]
