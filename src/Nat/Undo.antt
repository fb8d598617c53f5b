-- ===== src/Nat/Undo.antt =====
-- src/nat.rs: what enabling and dropping the guard do to the host.
use just_another_vpn_server.Prelude.{
  ℕ, ◌+◌, ◌-◌, ◌≤◌, ◌≡◌, refl, ap, ◌∙◌, Bool, true, false, not, List, Option, some, arith, ok,
}
use just_another_vpn_server.Prelude.Steps.{Step, ◌>>◌, kept, continue_with, done, pure, when}
use just_another_vpn_server.Prelude.Text.{trim, trim_start, trim_end, is_whitespace}
use just_another_vpn_server.Nat.{
  NatGuard, Kernel, Rule, append_args, delete_args, masquerade_rule, forward_rule, reverse_rule,
  is_on, iptables_run, switch_text, to_option, replace_rules, put_back, read_ip_forward,
  set_ip_forward, write_outcome, enable_masquerade, drop_guard,
}
use just_another_vpn_server.Nat.Cidr.{subnet_to_cidr}
use just_another_vpn_server.Nat.Host.{
  IsHost, hit, hit_self, switch_word, after, three_ignored, three_succeed,
}

module _ {H : Type 0} {host : Kernel H} {count : Rule → H → ℕ} {forwards : H → Bool}
    {Takes : Rule → Type 0} (laws : IsHost host count forwards Takes) where
  -- The host after a rule is deleted, and after it is appended.
  abbrev deleted : Rule → H → H
  deleted r h = (host.output (delete_args r) h).1

  abbrev appended : Rule → H → H
  appended r h = (host.output (append_args r) h).1

  -- The host after `set_ip_forward`.
  abbrev switched : Bool → H → H
  switched on h = (host.write_switch (switch_word on) h).1

  set_ip_forward-ok : (on : Bool) (h : H) → set_ip_forward host on h ≡ (ok tt, switched on h)
  unfolding set_ip_forward
  set_ip_forward-ok on h = written (host.write_switch (switch_word on) h) (laws.write_runs on h)
    where
      written : (o : Bool × H) → o.0 ≡ true → write_outcome o ≡ (ok tt, o.1)
      written (true, h') e = refl
      written (false, h') e = cc

  read_ip_forward-ok : (h : H) → read_ip_forward host h ≡ (ok (forwards h), h)
  unfolding read_ip_forward trim trim_start trim_end is_whitespace
  read_ip_forward-ok h =
      ap (λ t. (switch_text t, h)) (laws.read_eq h) ∙ ap (λ r. (r, h)) (on_or_off (forwards h))
    where
      on_or_off : (b : Bool) → switch_text (some (switch_word b)) ≡ ok b
      on_or_off true = refl
      on_or_off false = refl

  -- The host with forwarding on: it is switched on only where it was off.
  abbrev enabled : Bool → H → H
  enabled true h = h
  enabled false h = switched true h

  module _ (tun_iface wan_iface : List ℕ) (tun_ip tun_netmask : ℕ) where
    -- The rules: masquerading on the way out, and both ways through the chain FORWARD.
    abbrev rule_out : Rule
    rule_out = masquerade_rule (subnet_to_cidr tun_ip tun_netmask) wan_iface

    abbrev rule_there : Rule
    rule_there = forward_rule tun_iface wan_iface

    abbrev rule_back : Rule
    rule_back = reverse_rule tun_iface wan_iface

    -- The host takes the three rules.
    module _ (takes_out : Takes rule_out) (takes_there : Takes rule_there)
        (takes_back : Takes rule_back) where
      -- The host after the steps of each of the functions.
      abbrev cleared : H → H
      cleared = after host (delete_args rule_out) (delete_args rule_there) (delete_args rule_back)

      abbrev installed : H → H
      installed = after host (append_args rule_out) (append_args rule_there) (append_args rule_back)

      abbrev undone : H → H
      undone = after host (delete_args rule_back) (delete_args rule_there) (delete_args rule_out)

      abbrev guard : H → NatGuard
      guard h = record {
        tun_iface = tun_iface;
        wan_iface = wan_iface;
        cidr = subnet_to_cidr tun_ip tun_netmask;
        prior_ip_forward = some (forwards h);
      }

      abbrev install : Step H (Unit {0})
      install =
          iptables_run host (append_args rule_out)
          >> (iptables_run host (append_args rule_there)
              >> (iptables_run host (append_args rule_back) >> done))

      replace_rules-ok :
          (h : H)
          → replace_rules host tun_iface wan_iface (subnet_to_cidr tun_ip tun_netmask) h
            ≡ (ok tt, installed (cleared h))
      unfolding replace_rules
      replace_rules-ok h =
          three_ignored host (delete_args rule_out) (delete_args rule_there) (delete_args rule_back)
            install h
          ∙ three_succeed host (append_args rule_out) (append_args rule_there)
              (append_args rule_back) done (cleared h) (laws.append_runs rule_out _ takes_out)
              (laws.append_runs rule_there _ takes_there) (laws.append_runs rule_back _ takes_back)

      drop_guard-ok :
          (g : H) (h : H) → drop_guard host (guard g) h ≡ (ok tt, switched (forwards g) (undone h))
      unfolding drop_guard
      drop_guard-ok g h =
          three_ignored host (delete_args rule_back) (delete_args rule_there) (delete_args rule_out)
            (put_back host (some (forwards g))) h
          ∙ ap (λ o. continue_with (kept o) (λ _. done)) (set_ip_forward-ok (forwards g) (undone h))

      switch_on-ok :
          (b : Bool) (h : H) → when (not b) (set_ip_forward host true) h ≡ (ok tt, enabled b h)
      switch_on-ok true h = refl
      switch_on-ok false h = set_ip_forward-ok true h

      -- The part behind the first read, given what was read.
      abbrev enable_rest : Option Bool → Step H NatGuard
      enable_rest prior =
          when (not (is_on prior)) (set_ip_forward host true)
          >> (replace_rules host tun_iface wan_iface (subnet_to_cidr tun_ip tun_netmask)
              >> pure (record {
                tun_iface = tun_iface;
                wan_iface = wan_iface;
                cidr = subnet_to_cidr tun_ip tun_netmask;
                prior_ip_forward = prior;
              }))

      enable_rest-ok :
          (b : Bool) (h : H)
          → enable_rest (some b) h ≡ (
            ok (record {
              tun_iface = tun_iface;
              wan_iface = wan_iface;
              cidr = subnet_to_cidr tun_ip tun_netmask;
              prior_ip_forward = some b;
            }),
            installed (cleared (enabled b h)),
          )
      enable_rest-ok b h =
          ap (λ r. continue_with r (λ _. rest)) (switch_on-ok b h)
          ∙ ap (λ r. continue_with r (λ _. pure made)) (replace_rules-ok (enabled b h))
        where
          made : NatGuard
          made = record {
            tun_iface = tun_iface;
            wan_iface = wan_iface;
            cidr = subnet_to_cidr tun_ip tun_netmask;
            prior_ip_forward = some b;
          }

          rest : Step H NatGuard
          rest =
              replace_rules host tun_iface wan_iface (subnet_to_cidr tun_ip tun_netmask)
              >> pure made

      enable_masquerade-ok :
          (h : H)
          → enable_masquerade host tun_iface wan_iface tun_ip tun_netmask h
            ≡ (ok (guard h), installed (cleared (enabled (forwards h) h)))
      unfolding enable_masquerade
      enable_masquerade-ok h =
          ap (λ r. continue_with (kept r) (λ found. enable_rest (to_option found)))
            (read_ip_forward-ok h)
          ∙ enable_rest-ok (forwards h) h

      forwards-after :
          (a b c : Rule) (h : H)
          → Takes a
          → Takes b
          → Takes c
          → (forwards (after host (append_args a) (append_args b) (append_args c) h) ≡ forwards h)
            × (forwards (after host (delete_args a) (delete_args b) (delete_args c) h) ≡ forwards h)
      forwards-after a b c h ta tb tc = (
        laws.append_switch c _ tc ∙ laws.append_switch b _ tb ∙ laws.append_switch a h ta,
        laws.delete_switch c _ tc ∙ laws.delete_switch b _ tb ∙ laws.delete_switch a h ta,
      )

      count-installed :
          (x : Rule) (h : H)
          → count x (installed h) ≡ count x h + hit x rule_out + hit x rule_there + hit x rule_back
      count-installed x h =
          let h1 : H = appended rule_out h in
          omega (
            arith,
            laws.append_count x rule_back (appended rule_there h1) takes_back,
            laws.append_count x rule_there h1 takes_there,
            laws.append_count x rule_out h takes_out,
          )

      count-cleared :
          (x : Rule) (h : H)
          → count x (cleared h) ≡ count x h - hit x rule_out - hit x rule_there - hit x rule_back
      count-cleared x h =
          let h1 : H = deleted rule_out h in
          omega (
            arith,
            laws.delete_count x rule_back (deleted rule_there h1) takes_back,
            laws.delete_count x rule_there h1 takes_there,
            laws.delete_count x rule_out h takes_out,
          )

      count-undone :
          (x : Rule) (h : H)
          → count x (undone h) ≡ count x h - hit x rule_back - hit x rule_there - hit x rule_out
      count-undone x h =
          let h1 : H = deleted rule_back h in
          omega (
            arith,
            laws.delete_count x rule_out (deleted rule_there h1) takes_out,
            laws.delete_count x rule_there h1 takes_there,
            laws.delete_count x rule_back h takes_back,
          )

      enabled-on : (b : Bool) (h : H) → forwards h ≡ b → forwards (enabled b h) ≡ true
      enabled-on true h e = e
      enabled-on false h e = laws.write_switch_eq true h

      enabled-count : (b : Bool) (x : Rule) (h : H) → count x (enabled b h) ≡ count x h
      enabled-count true x h = refl
      enabled-count false x h = laws.write_count x true h

      -- On a host that takes the three rules and lets the program change the forwarding switch:
      -- enabling NAT succeeds, forwarding is on afterwards and each of the three rules is installed.
      -- Dropping the guard then succeeds and leaves the switch as it was before NAT was enabled, and
      -- every rule installed as often as before, but for one copy of each of the three rules, which
      -- is taken away where the host had one before.
      pub drop_guard-enable_masquerade :
          (h : H)
          → (g : NatGuard) × (h1 : H) × (h2 : H) × (enable_masquerade host tun_iface wan_iface
                tun_ip tun_netmask h
              ≡ (ok g, h1))
            × (forwards h1 ≡ true)
            × (1 ≤ count rule_out h1)
            × (1 ≤ count rule_there h1)
            × (1 ≤ count rule_back h1)
            × (drop_guard host g h1 ≡ (ok tt, h2))
            × (forwards h2 ≡ forwards h)
            × ((x : Rule)
                → count x h2 ≡ count x h - hit x rule_out - hit x rule_there - hit x rule_back)
      drop_guard-enable_masquerade h =
          let b : Bool = forwards h in
          let h0 : H = enabled b h in
          let h1 : H = installed (cleared h0) in
          let still : forwards h1 ≡ true =
            (forwards-after rule_out rule_there rule_back (cleared h0) takes_out takes_there
              takes_back).0
            ∙ (forwards-after rule_out rule_there rule_back h0 takes_out takes_there takes_back).1
            ∙ enabled-on b h refl in
          (
            guard h,
            h1,
            switched b (undone h1),
            enable_masquerade-ok h,
            still,
            omega (arith, count-installed rule_out (cleared h0), hit_self rule_out),
            omega (arith, count-installed rule_there (cleared h0), hit_self rule_there),
            omega (arith, count-installed rule_back (cleared h0), hit_self rule_back),
            drop_guard-ok h h1,
            laws.write_switch_eq b (undone h1),
            λ x. omega (
              arith,
              laws.write_count x b (undone h1),
              count-undone x h1,
              count-installed x (cleared h0),
              count-cleared x h0,
              enabled-count b x h,
            ),
          )
