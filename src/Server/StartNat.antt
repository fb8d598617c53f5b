-- ===== src/Server/StartNat.antt =====
-- src/server.rs: what holds of the host where `VpnServer::new` sets up NAT.
use just_another_vpn_server.Prelude.{
  ℕ, ◌≤◌, ◌≡◌, sym, ap, subst, ◌∙◌, Bool, true, false, List, Option, none, some, if◌then◌else◌, ok,
  Error, ok-injective,
}
use just_another_vpn_server.Prelude.Steps.{continue_with-ok, continue_with-lift, pure}
use just_another_vpn_server.Config.{ServerConfig, IpAddr, v4, v6}
use just_another_vpn_server.Nat.{
  Kernel, NatGuard, Rule, enable_masquerade, drop_guard, masquerade_rule, forward_rule,
  reverse_rule,
}
use just_another_vpn_server.Nat.Cidr.{subnet_to_cidr}
use just_another_vpn_server.Nat.Routes.{detect_default_route_iface}
use just_another_vpn_server.Nat.Host.{IsHost}
use just_another_vpn_server.Nat.Undo.{drop_guard-enable_masquerade}
use just_another_vpn_server.Server.Startup.{start_nat, install_nat, wan_of, expect_v4}
use Error.{tun_ip_not_v4, tun_netmask_not_v4}

-- The interface that is configured, or else the one of the default route.
abbrev pub IsWan : Option (List ℕ) → Option (List ℕ) → List ℕ → Type 0
IsWan (some s) routes wan = s ≡ wan
IsWan none routes wan = detect_default_route_iface routes ≡ ok wan

pub expect_v4-ok : (ip : IpAddr) (e : Error) (n : ℕ) → expect_v4 ip e ≡ ok n → ip ≡ v4 n
unfolding expect_v4
expect_v4-ok (v4 m) e n h = ap v4 (ok-injective h)
expect_v4-ok (v6 m) e n h = cc

module _ {H : Type 0} (host : Kernel H) where
  -- The names and addresses that the rules are made from.
  pub record IsSetup (cfg : ServerConfig) (h : H) (wan : List ℕ) (ip mask : ℕ) : Type 0 where
    pub wan_is : IsWan cfg.wan_iface (host.read_routes h) wan
    pub ip_is : cfg.tun_ip ≡ v4 ip
    pub mask_is : cfg.tun_netmask ≡ v4 mask

  -- The host takes the three rules, whichever interface and addresses they are made from.
  abbrev pub TakesRules : (Rule → Type 0) → ServerConfig → H → Type 0
  TakesRules Takes cfg h =
      (wan : List ℕ) (ip mask : ℕ)
      → IsSetup cfg h wan ip mask
      → Takes (masquerade_rule (subnet_to_cidr ip mask) wan)
        × Takes (forward_rule cfg.tun_name wan)
        × Takes (reverse_rule cfg.tun_name wan)

  wan_of-IsWan :
      (o : Option (List ℕ)) (wan : List ℕ) (h h' : H)
      → wan_of host o h ≡ (ok wan, h')
      → IsWan o (host.read_routes h) wan × (h ≡ h')
  unfolding wan_of
  wan_of-IsWan none wan h h' e = (ap (λ r. r.0) e, ap (λ r. r.1) e)
  wan_of-IsWan (some s) wan h h' e = (ok-injective (ap (λ r. r.0) e), ap (λ r. r.1) e)

  module _ (count : Rule → H → ℕ) (forwards : H → Bool) where
    -- From the host `h` NAT was set up: on `h'` forwarding is on and the three rules are installed;
    -- dropping the guard succeeds there and leaves the switch as it was on `h`.
    pub record IsNatOn (cfg : ServerConfig) (guard : Option NatGuard) (h h' : H) : Type 0 where
      pub wan : List ℕ
      pub ip : ℕ
      pub mask : ℕ
      pub setup : IsSetup cfg h wan ip mask
      pub on : forwards h' ≡ true
      pub out : 1 ≤ count (masquerade_rule (subnet_to_cidr ip mask) wan) h'
      pub there : 1 ≤ count (forward_rule cfg.tun_name wan) h'
      pub back : 1 ≤ count (reverse_rule cfg.tun_name wan) h'
      pub made : NatGuard
      pub guard_is : guard ≡ some made
      pub undone : H
      pub undoes : drop_guard host made h' ≡ (ok tt, undone)
      pub as_before : forwards undone ≡ forwards h

    -- NAT is set up, or else there is no guard and the host is as it was.
    abbrev pub HasNat : Bool → ServerConfig → Option NatGuard → H → H → Type 0
    HasNat true cfg guard h h' = IsNatOn cfg guard h h'
    HasNat false cfg guard h h' = (guard ≡ none) × (h' ≡ h)

module _ {H : Type 0} {host : Kernel H} {count : Rule → H → ℕ} {forwards : H → Bool}
    {Takes : Rule → Type 0} (laws : IsHost host count forwards Takes) where
  install_nat-IsNatOn :
      (cfg : ServerConfig) (guard : Option NatGuard) (h h' : H)
      → TakesRules host Takes cfg h
      → install_nat host cfg h ≡ (ok guard, h')
      → IsNatOn host count forwards cfg guard h h'
  unfolding install_nat
  install_nat-IsNatOn cfg guard h h' takes e =
      let (wan, h1, found, rest1) = continue_with-ok (wan_of host cfg.wan_iface h) _ e in
      let (wan_is, same) = wan_of-IsWan host cfg.wan_iface wan h h1 found in
      let (ip, ip_is, rest2) = continue_with-lift (expect_v4 cfg.tun_ip tun_ip_not_v4) h1 _ rest1 in
      let (mask, mask_is, rest3) =
        continue_with-lift (expect_v4 cfg.tun_netmask tun_netmask_not_v4) h1 _ rest2 in
      let (g, h2, enabled, rest4) =
        continue_with-ok (enable_masquerade host cfg.tun_name wan ip mask h1) _ rest3 in
      let setup : IsSetup host cfg h wan ip mask = record {
        wan_is = wan_is;
        ip_is = expect_v4-ok cfg.tun_ip tun_ip_not_v4 ip ip_is;
        mask_is = expect_v4-ok cfg.tun_netmask tun_netmask_not_v4 mask mask_is;
      } in
      let (t1, t2, t3) = takes wan ip mask setup in
      let (made, on_host, undone, ran, on, out, there, back, undoes, as_before, counts) =
        drop_guard-enable_masquerade laws cfg.tun_name wan ip mask t1 t2 t3 h in
      let both : (ok made, on_host) ≡ (ok g, h2) =
        sym ran ∙ ap (enable_masquerade host cfg.tun_name wan ip mask) same ∙ enabled in
      let ends : on_host ≡ h' = ap (λ r. r.1) both ∙ ap (λ r. r.1) rest4 in
      let named : made ≡ g = ok-injective (ap (λ r. r.0) both) in
      subst (λ k. IsNatOn host count forwards cfg guard h k) ends
        (record {
          wan = wan;
          ip = ip;
          mask = mask;
          setup = setup;
          on = on;
          out = out;
          there = there;
          back = back;
          made = made;
          guard_is = sym (ok-injective (ap (λ r. r.0) rest4)) ∙ ap some (sym named);
          undone = undone;
          undoes = undoes;
          as_before = as_before;
        })

  nat-HasNat :
      (cfg : ServerConfig) (b : Bool) (guard : Option NatGuard) (h h' : H)
      → TakesRules host Takes cfg h
      → (if b then install_nat host cfg else pure none) h ≡ (ok guard, h')
      → HasNat host count forwards b cfg guard h h'
  nat-HasNat cfg false guard h h' takes e =
      (sym (ok-injective (ap (λ r. r.0) e)), sym (ap (λ r. r.1) e))
  nat-HasNat cfg true guard h h' takes e = install_nat-IsNatOn cfg guard h h' takes e

  pub start_nat-HasNat :
      (cfg : ServerConfig) (guard : Option NatGuard) (h h' : H)
      → TakesRules host Takes cfg h
      → start_nat host cfg h ≡ (ok guard, h')
      → HasNat host count forwards cfg.enable_nat cfg guard h h'
  unfolding start_nat
  start_nat-HasNat cfg guard h h' takes e = nat-HasNat cfg cfg.enable_nat guard h h' takes e
