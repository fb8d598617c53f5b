-- ===== src/Server/StartTests.antt =====
-- A server that starts with a tls-crypt key from a file, and with NAT.
use just_another_vpn_server.Prelude.{
  ℕ, List, inl, inr, sym, ap, ◌∙◌, ◌≡◌, refl, true, false, not, [], ◌∷◌, ◌++◌, none, some, Result,
  ok, err, Error, if◌then◌else◌, ◌==◌, replicate,
}
use mathlib.Core.Option.{some-injective}
use just_another_vpn_server.Prelude.Text.{
  lines, trim, trim_start, trim_end, is_whitespace, str_len, len_utf8,
}
use just_another_vpn_server.Config.{ServerConfig, v4}
use just_another_vpn_server.StaticKey.{
  begin_mark, parse_static_key_file, parse_static_key_text, scan_lines, scan_line, scan_trimmed,
}
use just_another_vpn_server.TlsCrypt
use just_another_vpn_server.Nat.{
  NatGuard, enable_masquerade, replace_rules, read_ip_forward, set_ip_forward, iptables_run,
  masquerade_rule, forward_rule, reverse_rule,
}
use just_another_vpn_server.Nat.Cidr.{subnet_to_cidr}
use just_another_vpn_server.Nat.SmallHost.{State, small_host, count, forwards, small_host-IsHost}
use just_another_vpn_server.Server.Certs.{
  Pki, build_server_config, load_certs, load_private_key, add_roots, collect,
}
use just_another_vpn_server.Server.Keys.{Outside, Envelopes, load_envelopes}
use just_another_vpn_server.Server.Startup.{
  install_nat, wan_of, Started, new, start_nat, expect_v4, pool_v6, make_server,
}
use just_another_vpn_server.Nat.Host.{IsTable}
use just_another_vpn_server.Server.StartTls.{IsStore, HasTls}
use just_another_vpn_server.Server.StartNat.{TakesRules, HasNat}
use just_another_vpn_server.Server.Started.{HasEnvelope, new-HasEnvelope}
use just_another_vpn_server.Server.Fixtures.{cfg}

-- "eth0"
abbrev wan : List ℕ
wan = 101 ∷ 116 ∷ 104 ∷ 48 ∷ []

abbrev with_key : ServerConfig
with_key = record cfg {
  tls_crypt_key = some 9;
  tls_auth_key = some 8;
  enable_nat = true;
  wan_iface = some wan;
}

-- The file 9 has the digits of a key in one line; the decoder knows these only.
abbrev outside : Outside
outside = record {
  bind = λ addr. not (addr == 0);
  read_to_string = λ path. if path == 9 then some (begin_mark ++ 10 ∷ replicate 512 97) else none;
  hex_decode = λ text. some (replicate 256 0xaa);
}

-- A PEM file is the name of its one certificate or key, and a configuration has the names of the key
-- and the roots.
abbrev names : List (List ℕ) → List ℕ
names [] = []
names (c ∷ cs) = c ++ names cs

abbrev pki : Pki (List (List ℕ)) (List (List ℕ)) (List ℕ)
pki = record {
  open_file = λ path. some (path ∷ []);
  certs = λ bytes. some bytes ∷ [];
  private_key = λ bytes. some (some bytes);
  empty_roots = [];
  add = λ roots c. some (c ∷ roots);
  build_verifier = λ roots. some roots;
  with_single_cert = λ verifier chain key. some (key ++ names verifier);
}

-- A store trusts the certificates that stand in it.
abbrev Holds : List (List ℕ) → List ℕ → Type 0
Holds roots c = (front : List (List ℕ)) × (back : List (List ℕ)) × (roots ≡ front ++ c ∷ back)

pki-IsStore : IsStore pki Holds
pki-IsStore = record {
  adds = λ roots grown c e. ([], roots, sym (some-injective _ _ e));
  keeps = λ roots grown c d e (front, back, same).
      (c ∷ front, back, sym (some-injective _ _ e) ∙ ap (◌∷◌ c) same);
}

abbrev h : State
h = record { rules = []; on = false }

abbrev keys : Envelopes
keys = record {
  tls_crypt = some (TlsCrypt.from_static_key_server (replicate 256 0xaa));
  tls_auth = none;
}

-- "10.8.0.0/24", the guard, and the host behind the start.
abbrev cidr : List ℕ
cidr = subnet_to_cidr 0x0a080001 0xffffff00

abbrev guard : NatGuard
guard = record { tun_iface = []; wan_iface = wan; cidr = cidr; prior_ip_forward = some false }

abbrev h1 : State
h1 = record {
  rules = masquerade_rule cidr wan ∷ forward_rule [] wan ∷ reverse_rule [] wan ∷ [];
  on = true;
}

abbrev started : Started ℕ (List ℕ)
started = record {
  tls_cfg = 4 ∷ 2 ∷ [];
  server = make_server with_key keys 0x0a080002 0x0a080004 (none, none);
  nat_guard = some guard;
}

parse_run :
    parse_static_key_file outside.hex_decode (outside.read_to_string 9) ≡ ok (replicate 256 0xaa)
unfolding parse_static_key_file parse_static_key_text scan_lines scan_line scan_trimmed lines trim
    trim_start trim_end is_whitespace str_len len_utf8
parse_run = refl

new_run : new small_host pki outside with_key h ≡ (ok started, h1)
unfolding new build_server_config load_certs load_private_key add_roots collect start_nat
    install_nat wan_of enable_masquerade replace_rules read_ip_forward set_ip_forward iptables_run
    load_envelopes expect_v4 pool_v6 parse_static_key_file parse_static_key_text scan_lines
    scan_line scan_trimmed lines trim trim_start trim_end is_whitespace str_len len_utf8
new_run = refl

small_host-TakesRules : TakesRules small_host IsTable with_key h
small_host-TakesRules iface ip mask setup = (inr refl, inl refl, inl refl)

new-HasEnvelope_example :
    (outside.bind 1 ≡ true)
    × HasTls pki Holds 2 3 4 (4 ∷ 2 ∷ [])
    × HasEnvelope outside (some 9) (some 8) 1 keys.tls_crypt none
    × (v4 0x0a080002 ≡ v4 0x0a080002)
    × (v4 0x0a080004 ≡ v4 0x0a080004)
    × HasNat small_host count forwards true with_key (some guard) h h1
    × (started.server.sessions ≡ [])
new-HasEnvelope_example =
    new-HasEnvelope small_host-IsHost pki-IsStore outside with_key h h1 started
      small_host-TakesRules new_run

-- A key file that cannot be read ends the start, before NAT.
abbrev refused : Result (Started ℕ (List ℕ)) × State
refused = (err Error.read_failed, h)

new_without_file :
    new small_host pki outside (record cfg { tls_auth_key = some 8; enable_nat = true }) h ≡ refused
unfolding new build_server_config load_certs load_private_key add_roots collect load_envelopes
    parse_static_key_file
new_without_file = refl
