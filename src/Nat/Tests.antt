-- ===== src/Nat/Tests.antt =====
-- NAT enabled and dropped on a small host, and the texts that src/nat.rs reads and prints.
use just_another_vpn_server.Prelude.{
  ℕ, inl, inr, ◌-◌, ◌≤◌, ◌≡◌, refl, Bool, true, false, List, [], ◌∷◌, ◌++◌, Option, some,
  if◌then◌else◌, list_beq, ok, err, Error,
}
use just_another_vpn_server.Prelude.Bits.{test_bit}
use just_another_vpn_server.Prelude.Text.{
  lines, split_whitespace, words, is_whitespace, trim, trim_start, trim_end,
}
use just_another_vpn_server.ControlChannel.Announce.{decimal, digits}
use just_another_vpn_server.Server.Push.{show_v4}
use just_another_vpn_server.Nat.{
  NatGuard, Kernel, Rule, enable_masquerade, drop_guard, masquerade_rule, forward_rule,
  reverse_rule, replace_rules, read_ip_forward, set_ip_forward, iptables_run,
}
use just_another_vpn_server.Nat.Words.{append_flag}
use just_another_vpn_server.Nat.Cidr.{subnet_to_cidr, leading_ones}
use just_another_vpn_server.Nat.Routes.{detect_default_route_iface, find_route}
use just_another_vpn_server.Nat.Host.{hit}
use just_another_vpn_server.Nat.SmallHost.{State, small_host, count, forwards, small_host-IsHost}
use just_another_vpn_server.Nat.Undo.{drop_guard-enable_masquerade}

-- "javs0" and "eth0"
abbrev tun : List ℕ
tun = 106 ∷ 97 ∷ 118 ∷ 115 ∷ 48 ∷ []

abbrev wan : List ℕ
wan = 101 ∷ 116 ∷ 104 ∷ 48 ∷ []

-- "10.8.0.0/24"
abbrev cidr : List ℕ
cidr = 49 ∷ 48 ∷ 46 ∷ 56 ∷ 46 ∷ 48 ∷ 46 ∷ 48 ∷ 47 ∷ 50 ∷ 52 ∷ []

subnet_to_cidr_run : subnet_to_cidr 0x0a080001 0xffffff00 ≡ cidr
unfolding subnet_to_cidr leading_ones show_v4 decimal digits test_bit
subnet_to_cidr_run = refl

-- "172.16.0.0/12"
subnet_to_cidr_twelve :
    subnet_to_cidr 0xac10c801 0xfff00000
    ≡ 49 ∷ 55 ∷ 50 ∷ 46 ∷ 49 ∷ 54 ∷ 46 ∷ 48 ∷ 46 ∷ 48 ∷ 47 ∷ 49 ∷ 50 ∷ []
unfolding subnet_to_cidr leading_ones show_v4 decimal digits test_bit
subnet_to_cidr_twelve = refl

-- A table with a header, one route to a network and the default route.
abbrev route_table : List ℕ
route_table =
    (73 ∷ 102 ∷ 97 ∷ 99 ∷ 101 ∷ [] ++ 10 ∷ [])
    ++ ((116 ∷ 117 ∷ 110 ∷ 48 ∷ 32 ∷ 48 ∷ 48 ∷ 48 ∷ 56 ∷ 48 ∷ 65 ∷ 48 ∷ 65 ∷ 32 ∷ 48 ∷ 32 ∷ 49 ∷ 32
            ∷ 48 ∷ 32 ∷ 48 ∷ 32 ∷ 48 ∷ 32 ∷ 48 ∷ []
          ++ 10 ∷ [])
        ++ 101 ∷ 116 ∷ 104 ∷ 48 ∷ 32 ∷ 48 ∷ 48 ∷ 48 ∷ 48 ∷ 48 ∷ 48 ∷ 48 ∷ 48 ∷ 32 ∷ 48 ∷ 32 ∷ 51
          ∷ 32 ∷ 48 ∷ 32 ∷ 48 ∷ 32 ∷ 48 ∷ 32 ∷ 48 ∷ [])

detect_run : detect_default_route_iface (some route_table) ≡ ok wan
unfolding detect_default_route_iface find_route lines split_whitespace words is_whitespace
detect_run = refl

detect_none : detect_default_route_iface (some wan) ≡ err Error.no_default_route
unfolding detect_default_route_iface find_route lines
detect_none = refl

-- A host with a rule of a previous run, and forwarding off.
abbrev rule : Rule
rule = masquerade_rule (subnet_to_cidr 0x0a080001 0xffffff00) wan

abbrev stale : State
stale = record { rules = rule ∷ []; on = false }

drop_guard-enable_masquerade_example :
    (g : NatGuard) × (h1 : State) × (h2 : State) × (enable_masquerade small_host tun wan 0x0a080001
        0xffffff00 stale
      ≡ (ok g, h1))
    × (forwards h1 ≡ true)
    × (1 ≤ count rule h1)
    × (1 ≤ count (forward_rule tun wan) h1)
    × (1 ≤ count (reverse_rule tun wan) h1)
    × (drop_guard small_host g h1 ≡ (ok tt, h2))
    × (forwards h2 ≡ false)
    × ((x : Rule)
        → count x h2
          ≡ count x stale
            - hit x rule
            - hit x (forward_rule tun wan)
            - hit x (reverse_rule tun wan))
drop_guard-enable_masquerade_example =
    drop_guard-enable_masquerade small_host-IsHost tun wan 0x0a080001 0xffffff00 (inr refl)
      (inl refl) (inl refl) stale

-- A host that refuses to append to the filter table: the function fails, and what it did before
-- stays, since there is no guard yet that would undo it.
abbrev refusing : Option Bool × State → List (List ℕ) → State → Option Bool × State
refusing outcome [] h = outcome
refusing outcome (a ∷ more) h = if list_beq a append_flag then (some false, h) else outcome

abbrev strict_host : Kernel State
strict_host = record {
  output = λ args h. refusing (small_host.output args h) args h;
  read_switch = small_host.read_switch;
  write_switch = small_host.write_switch;
  read_routes = small_host.read_routes;
}

half_installed :
    enable_masquerade strict_host tun wan 0x0a080001 0xffffff00 (record { rules = []; on = false })
    ≡ (
      err Error.iptables_failed,
      record { rules = masquerade_rule (subnet_to_cidr 0x0a080001 0xffffff00) wan ∷ []; on = true },
    )
unfolding enable_masquerade replace_rules read_ip_forward set_ip_forward iptables_run trim
    trim_start trim_end is_whitespace
half_installed = refl
