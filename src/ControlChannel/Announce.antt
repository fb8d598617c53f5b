-- ===== src/ControlChannel/Announce.antt =====
-- src/control_channel.rs: the strings that the server announces, and the numbers in them.
use just_another_vpn_server.Prelude.{
  ℕ, zero, suc, ◌+◌, ◌/◌, ◌%◌, ◌^◌, bit_or, List, [], ◌∷◌, ◌++◌, ltb, if◌then◌else◌,
}

-- The decimal digits of a number; its own size is fuel enough.
unfoldable pub digits : ℕ → ℕ → List ℕ
digits zero n = []
digits (suc fuel) n =
    let front = digits fuel (n / 10) in
    let last = (48 + n % 10) ∷ [] in if ltb n 10 then last else front ++ last

-- `{}` of an unsigned number.
unfoldable pub decimal : ℕ → List ℕ
decimal n = digits (n + 1) n

-- "V4,dev-type tun,link-mtu "
abbrev options_head : List ℕ
options_head =
    86 ∷ 52 ∷ 44 ∷ 100 ∷ 101 ∷ 118 ∷ 45 ∷ 116 ∷ 121 ∷ 112 ∷ 101 ∷ 32 ∷ 116 ∷ 117 ∷ 110 ∷ 44 ∷ 108
    ∷ 105 ∷ 110 ∷ 107 ∷ 45 ∷ 109 ∷ 116 ∷ 117 ∷ 32 ∷ []

-- ",tun-mtu "
abbrev options_mtu : List ℕ
options_mtu = 44 ∷ 116 ∷ 117 ∷ 110 ∷ 45 ∷ 109 ∷ 116 ∷ 117 ∷ 32 ∷ []

-- ",proto UDPv4,cipher AES-256-GCM,auth SHA256,keysize 256,key-method 2,tls-server"
abbrev options_tail : List ℕ
options_tail =
    44 ∷ 112 ∷ 114 ∷ 111 ∷ 116 ∷ 111 ∷ 32 ∷ 85 ∷ 68 ∷ 80 ∷ 118 ∷ 52 ∷ 44 ∷ 99 ∷ 105 ∷ 112 ∷ 104
    ∷ 101 ∷ 114 ∷ 32 ∷ 65 ∷ 69 ∷ 83 ∷ 45 ∷ 50 ∷ 53 ∷ 54 ∷ 45 ∷ 71 ∷ 67 ∷ 77 ∷ 44 ∷ 97 ∷ 117 ∷ 116
    ∷ 104 ∷ 32 ∷ 83 ∷ 72 ∷ 65 ∷ 50 ∷ 53 ∷ 54 ∷ 44 ∷ 107 ∷ 101 ∷ 121 ∷ 115 ∷ 105 ∷ 122 ∷ 101 ∷ 32
    ∷ 50 ∷ 53 ∷ 54 ∷ 44 ∷ 107 ∷ 101 ∷ 121 ∷ 45 ∷ 109 ∷ 101 ∷ 116 ∷ 104 ∷ 111 ∷ 100 ∷ 32 ∷ 50 ∷ 44
    ∷ 116 ∷ 108 ∷ 115 ∷ 45 ∷ 115 ∷ 101 ∷ 114 ∷ 118 ∷ 101 ∷ 114 ∷ []

-- "IV_VER=javs-0.1.0\nIV_PLAT=server\nIV_PROTO="
abbrev peer_info_head : List ℕ
peer_info_head =
    73 ∷ 86 ∷ 95 ∷ 86 ∷ 69 ∷ 82 ∷ 61 ∷ 106 ∷ 97 ∷ 118 ∷ 115 ∷ 45 ∷ 48 ∷ 46 ∷ 49 ∷ 46 ∷ 48 ∷ 10 ∷ 73
    ∷ 86 ∷ 95 ∷ 80 ∷ 76 ∷ 65 ∷ 84 ∷ 61 ∷ 115 ∷ 101 ∷ 114 ∷ 118 ∷ 101 ∷ 114 ∷ 10 ∷ 73 ∷ 86 ∷ 95 ∷ 80
    ∷ 82 ∷ 79 ∷ 84 ∷ 79 ∷ 61 ∷ []

-- "\nIV_CIPHERS=AES-256-GCM\n"
abbrev peer_info_tail : List ℕ
peer_info_tail =
    10 ∷ 73 ∷ 86 ∷ 95 ∷ 67 ∷ 73 ∷ 80 ∷ 72 ∷ 69 ∷ 82 ∷ 83 ∷ 61 ∷ 65 ∷ 69 ∷ 83 ∷ 45 ∷ 50 ∷ 53 ∷ 54
    ∷ 45 ∷ 71 ∷ 67 ∷ 77 ∷ 10 ∷ []

unfoldable pub build_options_string : ℕ → ℕ → List ℕ
build_options_string link_mtu tun_mtu =
    options_head ++ (decimal link_mtu ++ (options_mtu ++ (decimal tun_mtu ++ options_tail)))

abbrev pub request_push : ℕ
request_push = 2 ^ 2

abbrev pub cc_exit_notify : ℕ
cc_exit_notify = 2 ^ 7

unfoldable pub build_peer_info : List ℕ
build_peer_info =
    let proto = bit_or request_push cc_exit_notify in
    peer_info_head ++ (decimal proto ++ peer_info_tail)
