-- ===== src/Server/Push.antt =====
-- src/server.rs: the `PUSH_REPLY` message. A string is its bytes; `show_v6` is the display form of
-- IPv6 addresses, and of no consequence here.
use just_another_vpn_server.Prelude.{
  ℕ, ◌+◌, ◌-◌, ◌*◌, ◌/◌, ◌%◌, ◌^◌, Bool, true, false, ◌&&◌, List, [], ◌∷◌, ◌++◌, Option, none, some,
  ltb, leb, ◌==◌, if◌then◌else◌, list_beq,
}
use just_another_vpn_server.ControlChannel.Announce.{decimal}
use just_another_vpn_server.Config.{ServerConfig, IpAddr, v4, v6}

-- "PUSH_REPLY"
abbrev push_reply : List ℕ
push_reply = 80 ∷ 85 ∷ 83 ∷ 72 ∷ 95 ∷ 82 ∷ 69 ∷ 80 ∷ 76 ∷ 89 ∷ []

-- ",ifconfig "
abbrev ifconfig : List ℕ
ifconfig = 44 ∷ 105 ∷ 102 ∷ 99 ∷ 111 ∷ 110 ∷ 102 ∷ 105 ∷ 103 ∷ 32 ∷ []

-- ",topology subnet"
abbrev topology : List ℕ
topology =
    44 ∷ 116 ∷ 111 ∷ 112 ∷ 111 ∷ 108 ∷ 111 ∷ 103 ∷ 121 ∷ 32 ∷ 115 ∷ 117 ∷ 98 ∷ 110 ∷ 101 ∷ 116 ∷ []

-- ",route-gateway "
abbrev route_gateway : List ℕ
route_gateway =
    44 ∷ 114 ∷ 111 ∷ 117 ∷ 116 ∷ 101 ∷ 45 ∷ 103 ∷ 97 ∷ 116 ∷ 101 ∷ 119 ∷ 97 ∷ 121 ∷ 32 ∷ []

-- ",ifconfig-ipv6 "
abbrev ifconfig_ipv6 : List ℕ
ifconfig_ipv6 =
    44 ∷ 105 ∷ 102 ∷ 99 ∷ 111 ∷ 110 ∷ 102 ∷ 105 ∷ 103 ∷ 45 ∷ 105 ∷ 112 ∷ 118 ∷ 54 ∷ 32 ∷ []

-- "0.0.0.0/0"
abbrev default_route : List ℕ
default_route = 48 ∷ 46 ∷ 48 ∷ 46 ∷ 48 ∷ 46 ∷ 48 ∷ 47 ∷ 48 ∷ []

-- ",route "
abbrev route : List ℕ
route = 44 ∷ 114 ∷ 111 ∷ 117 ∷ 116 ∷ 101 ∷ 32 ∷ []

-- ",redirect-gateway def1 bypass-dhcp"
abbrev redirect : List ℕ
redirect =
    44 ∷ 114 ∷ 101 ∷ 100 ∷ 105 ∷ 114 ∷ 101 ∷ 99 ∷ 116 ∷ 45 ∷ 103 ∷ 97 ∷ 116 ∷ 101 ∷ 119 ∷ 97 ∷ 121
    ∷ 32 ∷ 100 ∷ 101 ∷ 102 ∷ 49 ∷ 32 ∷ 98 ∷ 121 ∷ 112 ∷ 97 ∷ 115 ∷ 115 ∷ 45 ∷ 100 ∷ 104 ∷ 99 ∷ 112
    ∷ []

-- ",route-ipv6 "
abbrev route_ipv6 : List ℕ
route_ipv6 = 44 ∷ 114 ∷ 111 ∷ 117 ∷ 116 ∷ 101 ∷ 45 ∷ 105 ∷ 112 ∷ 118 ∷ 54 ∷ 32 ∷ []

-- ",dhcp-option DNS "
abbrev dns_option : List ℕ
dns_option =
    44 ∷ 100 ∷ 104 ∷ 99 ∷ 112 ∷ 45 ∷ 111 ∷ 112 ∷ 116 ∷ 105 ∷ 111 ∷ 110 ∷ 32 ∷ 68 ∷ 78 ∷ 83 ∷ 32 ∷ []

-- ",ping "
abbrev ping : List ℕ
ping = 44 ∷ 112 ∷ 105 ∷ 110 ∷ 103 ∷ 32 ∷ []

-- ",ping-restart "
abbrev ping_restart : List ℕ
ping_restart = 44 ∷ 112 ∷ 105 ∷ 110 ∷ 103 ∷ 45 ∷ 114 ∷ 101 ∷ 115 ∷ 116 ∷ 97 ∷ 114 ∷ 116 ∷ 32 ∷ []

-- ",cipher AES-256-GCM"
abbrev cipher : List ℕ
cipher =
    44 ∷ 99 ∷ 105 ∷ 112 ∷ 104 ∷ 101 ∷ 114 ∷ 32 ∷ 65 ∷ 69 ∷ 83 ∷ 45 ∷ 50 ∷ 53 ∷ 54 ∷ 45 ∷ 71 ∷ 67
    ∷ 77 ∷ []

-- ",peer-id "
abbrev peer_id_text : List ℕ
peer_id_text = 44 ∷ 112 ∷ 101 ∷ 101 ∷ 114 ∷ 45 ∷ 105 ∷ 100 ∷ 32 ∷ []

-- The display form of an IPv4 address.
unfoldable pub show_v4 : ℕ → List ℕ
show_v4 ip =
    decimal (ip / 2 ^ 24 % 256)
    ++ (46 ∷ decimal (ip / 2 ^ 16 % 256))
    ++ (46 ∷ decimal (ip / 2 ^ 8 % 256))
    ++ (46 ∷ decimal (ip % 256))

unfoldable pub netmask_of : IpAddr → ℕ
netmask_of (v4 v) = v
netmask_of (v6 w) = 0xffffff00

-- `str::split_once('/')`
unfoldable pub split_once : List ℕ → Option (List ℕ × List ℕ)
split_once [] = none
split_once (c ∷ cs) =
    if c == 47
    then some ([], cs)
    else elim (split_once cs) [ none ↦ none | some p ↦ some (c ∷ p.0, p.1) ]

-- `str::parse::<u32>` of the digits that are left.
unfoldable pub parse_digits : ℕ → List ℕ → Option ℕ
parse_digits acc [] = if ltb acc (2 ^ 32) then some acc else none
parse_digits acc (c ∷ cs) =
    let rest = parse_digits (acc * 10 + (c - 48)) cs in if leb 48 c && leb c 57 then rest else none

-- `str::parse::<u32>`: digits, at least one, with a plus sign before them or not.
unfoldable pub parse_u32 : List ℕ → Option ℕ
parse_u32 [] = none
parse_u32 (c ∷ []) = parse_digits 0 (c ∷ [])
parse_u32 (c ∷ d ∷ cs) = if c == 43 then parse_digits 0 (d ∷ cs) else parse_digits 0 (c ∷ d ∷ cs)

-- `(!0u32) << (32 - bits)`
unfoldable pub mask_of : ℕ → ℕ
mask_of bits = if bits == 0 then 0 else (2 ^ 32 - 1) * 2 ^ (32 - bits) % 2 ^ 32

abbrev route_of : List ℕ → Option ℕ → Option (List ℕ × List ℕ)
route_of net none = none
route_of net (some bits) = if ltb 32 bits then none else some (net, show_v4 (mask_of bits))

abbrev cidr_parts : Option (List ℕ × List ℕ) → Option (List ℕ × List ℕ)
cidr_parts none = none
cidr_parts (some p) = route_of p.0 (parse_u32 p.1)

unfoldable pub cidr_to_route : List ℕ → Option (List ℕ × List ℕ)
cidr_to_route cidr = cidr_parts (split_once cidr)

-- One turn of the loop over the routes: whether the gateway is redirected, and the text.
unfoldable pub push_route : Bool × List ℕ → List ℕ → Bool × List ℕ
push_route acc r = if list_beq r default_route then (true, acc.1) else elim (cidr_to_route r) [
  | none ↦ acc
  | some nm ↦ (acc.0, acc.1 ++ (route ++ (nm.0 ++ (32 ∷ nm.1))))
]

unfoldable pub push_routes_loop : Bool × List ℕ → List (List ℕ) → Bool × List ℕ
push_routes_loop acc [] = acc
push_routes_loop acc (r ∷ rs) = push_routes_loop (push_route acc r) rs

-- The prefix and the display form, for each of a list.
unfoldable pub push_each : {A : Type 0} → List ℕ → (A → List ℕ) → List ℕ → List A → List ℕ
push_each prefix show s [] = s
push_each prefix show s (a ∷ more) = push_each prefix show (s ++ (prefix ++ show a)) more

module _ (show_v6 : ℕ → List ℕ) where
  unfoldable pub show_ip : IpAddr → List ℕ
  show_ip (v4 ip) = show_v4 ip
  show_ip (v6 ip) = show_v6 ip

  unfoldable pub push_ipv6 : List ℕ → ServerConfig → Option IpAddr → Option ℕ → List ℕ
  push_ipv6 s cfg (some (v6 server6)) (some client6) =
      s
      ++ (ifconfig_ipv6
          ++ (show_v6 client6 ++ (47 ∷ (decimal cfg.tun_prefix6 ++ (32 ∷ show_v6 server6)))))
  push_ipv6 s cfg _ _ = s

  unfoldable pub build_push_reply : ServerConfig → ℕ → Option ℕ → ℕ → List (List ℕ) → List ℕ
  build_push_reply cfg client_ip client_ip6 peer_id extra_routes =
      let s1 =
        push_reply
        ++ (ifconfig ++ (show_v4 client_ip ++ (32 ∷ show_v4 (netmask_of cfg.tun_netmask)))) in
      let s2 = s1 ++ topology in
      let s3 = s2 ++ (route_gateway ++ show_ip cfg.tun_ip) in
      let s4 = push_ipv6 s3 cfg cfg.tun_ip6 client_ip6 in
      let (redirect_gateway, s5) = push_routes_loop (false, s4) (cfg.push_routes ++ extra_routes) in
      let s6 = if redirect_gateway then s5 ++ redirect else s5 in
      let s7 = push_each route_ipv6 (λ r. r) s6 cfg.push_routes_v6 in
      let s8 = push_each dns_option show_ip s7 cfg.push_dns in
      let s9 =
        s8
        ++ (ping
            ++ (decimal cfg.keepalive_ping ++ (ping_restart ++ decimal cfg.keepalive_timeout))) in
      let s10 = s9 ++ cipher in let s11 = s10 ++ (peer_id_text ++ decimal peer_id) in s11 ++ 0 ∷ []
