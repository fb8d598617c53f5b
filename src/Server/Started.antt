-- ===== src/Server/Started.antt =====
-- src/server.rs: what holds of a server that `VpnServer::new` returns.
use just_another_vpn_server.Prelude.{
  ℕ, ◌≡◌, refl, sym, ap, subst, ◌∙◌, Bool, true, false, not, List, [], Option, none, some, ok,
  Error, >>=-eq-ok, ok-injective,
}
use just_another_vpn_server.Prelude.Steps.{continue_with-ok, continue_with-lift, bail_when-ok}
use just_another_vpn_server.Config.{ServerConfig, v4}
use just_another_vpn_server.StaticKey.{parse_static_key_file}
use just_another_vpn_server.TlsCrypt
use just_another_vpn_server.TlsCrypt.{TlsCryptKey}
use just_another_vpn_server.TlsAuth
use just_another_vpn_server.TlsAuth.{TlsAuthKey}
use just_another_vpn_server.Nat.{Kernel, Rule}
use just_another_vpn_server.Server.Certs.{Pki, build_server_config}
use just_another_vpn_server.Nat.Host.{IsHost}
use just_another_vpn_server.Server.StartTls.{IsStore, HasTls, build_server_config-HasTls}
use just_another_vpn_server.Server.StartNat.{TakesRules, HasNat, start_nat-HasNat, expect_v4-ok}
use just_another_vpn_server.Server.Keys.{Outside, Envelopes, load_envelopes}
use just_another_vpn_server.Server.Startup.{
  Started, new, start_nat, expect_v4, pool_v6, make_server,
}
use Error.{bind_failed, pool_start_not_v4, pool_end_not_v4}

-- The envelope that the two paths ask for, with the key of the file: tls-crypt where a file for it
-- is named, else tls-auth where a file for that is named, and else none.
abbrev pub HasEnvelope :
    Outside → Option ℕ → Option ℕ → ℕ → Option TlsCryptKey → Option TlsAuthKey → Type 0
HasEnvelope outside (some path) auth direction tc ta =
    (km : List ℕ) × (parse_static_key_file outside.hex_decode (outside.read_to_string path) ≡ ok km)
    × (tc ≡ some (TlsCrypt.from_static_key_server km))
    × (ta ≡ none)
HasEnvelope outside none (some path) direction tc ta =
    (km : List ℕ) × (key : TlsAuthKey) × (parse_static_key_file outside.hex_decode
        (outside.read_to_string path)
      ≡ ok km)
    × (TlsAuth.from_static_key_server km direction ≡ ok key)
    × (tc ≡ none)
    × (ta ≡ some key)
HasEnvelope outside none none direction tc ta = (tc ≡ none) × (ta ≡ none)

module _ (outside : Outside) where
  load_envelopes-HasEnvelope :
      (crypt auth : Option ℕ) (direction : ℕ) (keys : Envelopes)
      → load_envelopes outside crypt auth direction ≡ ok keys
      → HasEnvelope outside crypt auth direction keys.tls_crypt keys.tls_auth
  unfolding load_envelopes
  load_envelopes-HasEnvelope (some path) auth direction keys h =
      let (km, parsed, made) =
        >>=-eq-ok (parse_static_key_file outside.hex_decode (outside.read_to_string path)) _ h in
      let e : record { tls_crypt = some (TlsCrypt.from_static_key_server km); tls_auth = none }
          ≡ keys =
        ok-injective made in
      (
        km,
        parsed,
        sym (ap (λ (k : Envelopes). k.tls_crypt) e),
        sym (ap (λ (k : Envelopes). k.tls_auth) e),
      )
  load_envelopes-HasEnvelope none (some path) direction keys h =
      let (km, parsed, more) =
        >>=-eq-ok (parse_static_key_file outside.hex_decode (outside.read_to_string path)) _ h in
      let (key, chosen, made) = >>=-eq-ok (TlsAuth.from_static_key_server km direction) _ more in
      let e : record { tls_crypt = none; tls_auth = some key } ≡ keys = ok-injective made in
      (
        km,
        key,
        parsed,
        chosen,
        sym (ap (λ (k : Envelopes). k.tls_crypt) e),
        sym (ap (λ (k : Envelopes). k.tls_auth) e),
      )
  load_envelopes-HasEnvelope none none direction keys h =
      let e : record { tls_crypt = none; tls_auth = none } ≡ keys = ok-injective h in
      (sym (ap (λ (k : Envelopes). k.tls_crypt) e), sym (ap (λ (k : Envelopes). k.tls_auth) e))

not-false : (b : Bool) → not b ≡ false → b ≡ true
not-false true h = refl
not-false false h = sym h

module _ {H : Type 0} {host : Kernel H} {count : Rule → H → ℕ} {forwards : H → Bool}
    {Takes : Rule → Type 0} (laws : IsHost host count forwards Takes) where
  module _ {Conn Roots Verifier TlsConfig : Type 0} {pki : Pki Roots Verifier TlsConfig}
      {Trusts : Roots → List ℕ → Type 0} (store : IsStore pki Trusts) (outside : Outside) where
    -- A server that starts is bound. Its TLS configuration has the certificate chain and the key that
    -- stand in the configured files, and asks clients for certificates, which a verifier checks that
    -- is built from a root store that trusts every certificate of the CA file, of which there is one
    -- at least. It has the envelope that its configuration names, made from the key of the named
    -- file, and no other, and its IPv4 pool is the configured one. Where NAT is configured,
    -- forwarding is on and the three rules are installed, for the configured or detected interface
    -- and the configured addresses, and dropping the guard succeeds and leaves the switch as it was
    -- before; else there is no guard and the host is as it was. It has no session yet. The store
    -- trusts what is added to it, and the host takes the three rules and lets the program change the
    -- forwarding switch.
    pub new-HasEnvelope :
        (cfg : ServerConfig) (h h' : H) (s : Started Conn TlsConfig)
        → TakesRules host Takes cfg h
        → new host pki outside cfg h ≡ (ok s, h')
        → (outside.bind cfg.listen ≡ true)
          × HasTls pki Trusts cfg.ca cfg.cert cfg.key s.tls_cfg
          × HasEnvelope outside cfg.tls_crypt_key cfg.tls_auth_key cfg.tls_auth_key_direction
              s.server.tls_crypt s.server.tls_auth
          × (cfg.client_pool_start ≡ v4 s.server.next_pool_ip)
          × (cfg.client_pool_end ≡ v4 s.server.pool_end)
          × HasNat host count forwards cfg.enable_nat cfg s.nat_guard h h'
          × (s.server.sessions ≡ [])
    unfolding new
    new-HasEnvelope cfg h h' s takes e =
        let (bound, rest1) = bail_when-ok (not (outside.bind cfg.listen)) bind_failed h _ e in
        let (tls_cfg, tls, rest2) =
          continue_with-lift (build_server_config pki cfg.ca cfg.cert cfg.key) h _ rest1 in
        let (keys, loaded, rest3) =
          continue_with-lift
            (load_envelopes outside cfg.tls_crypt_key cfg.tls_auth_key cfg.tls_auth_key_direction) h
            _ rest2 in
        let (start, is_start, rest4) =
          continue_with-lift (expect_v4 cfg.client_pool_start pool_start_not_v4) h _ rest3 in
        let (end, is_end, rest5) =
          continue_with-lift (expect_v4 cfg.client_pool_end pool_end_not_v4) h _ rest4 in
        let (pool, is_pool, rest6) =
          continue_with-lift (pool_v6 cfg.tun_ip6 cfg.client_pool_start_v6 cfg.client_pool_end_v6) h
            _ rest5 in
        let (guard, h1, nat, rest7) = continue_with-ok (start_nat host cfg h) _ rest6 in
        let made : record {
          tls_cfg = tls_cfg;
          server = make_server cfg keys start end pool;
          nat_guard = guard;
        }
            ≡ s =
          ok-injective (ap (λ r. r.0) rest7) in
        let same : h1 ≡ h' = ap (λ r. r.1) rest7 in
        let envelope : HasEnvelope outside cfg.tls_crypt_key cfg.tls_auth_key
            cfg.tls_auth_key_direction keys.tls_crypt keys.tls_auth =
          load_envelopes-HasEnvelope outside cfg.tls_crypt_key cfg.tls_auth_key
            cfg.tls_auth_key_direction keys loaded in
        (
          not-false (outside.bind cfg.listen) bound,
          subst
              (λ (x : Started Conn TlsConfig). HasTls pki Trusts cfg.ca cfg.cert cfg.key x.tls_cfg)
              made (build_server_config-HasTls pki store cfg.ca cfg.cert cfg.key tls_cfg tls),
          subst
              (λ (x : Started Conn TlsConfig).
                HasEnvelope outside cfg.tls_crypt_key cfg.tls_auth_key cfg.tls_auth_key_direction
                  x.server.tls_crypt x.server.tls_auth)
              made envelope,
          expect_v4-ok _ _ start is_start
              ∙ ap (λ (x : Started Conn TlsConfig). v4 x.server.next_pool_ip) made,
          expect_v4-ok _ _ end is_end
              ∙ ap (λ (x : Started Conn TlsConfig). v4 x.server.pool_end) made,
          subst (λ g. HasNat host count forwards cfg.enable_nat cfg g h h')
              (ap (λ (x : Started Conn TlsConfig). x.nat_guard) made)
              (subst (λ k. HasNat host count forwards cfg.enable_nat cfg guard h k) same
                (start_nat-HasNat laws cfg guard h h1 takes nat)),
          sym (ap (λ (x : Started Conn TlsConfig). x.server.sessions) made),
        )
