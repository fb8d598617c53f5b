-- ===== src/Server/StartTls.antt =====
-- src/tls.rs: what holds of a TLS configuration that `build_server_config` returns.
use just_another_vpn_server.Prelude.{
  ℕ, ◌≤◌, ◌≡◌, refl, ap, ◌∙◌, false, List, [], ◌∷◌, Option, none, some, arith, map, All, length,
  is_empty, Option-cases, inl, inr, ok, Error, or_fail, bail_if-eq-ok, >>=-eq-ok, ok-injective,
  subst,
}
use mathlib.Core.Option.{some-injective}
use just_another_vpn_server.Server.Certs.{
  Pki, collect, load_certs, load_private_key, add_roots, build_server_config,
}
use Error.{
  cert_file_failed, bad_pem, no_certificates, bad_private_key, no_private_key, bad_ca, bad_verifier,
  bad_server_cert,
}

pub or_fail-ok : {A : Type 0} (o : Option A) (e : Error) {a : A} → or_fail o e ≡ ok a → o ≡ some a
or_fail-ok none e h = cc
or_fail-ok (some b) e h = ap some (ok-injective h)

-- A root store trusts the certificates that were added to it.
pub record IsStore {Roots Verifier TlsConfig : Type 0} (pki : Pki Roots Verifier TlsConfig)
    (Trusts : Roots → List ℕ → Type 0) : Type 0 where
  pub adds : (roots grown : Roots) (c : List ℕ) → pki.add roots c ≡ some grown → Trusts grown c
  pub keeps :
      (roots grown : Roots) (c d : List ℕ)
      → pki.add roots c ≡ some grown
      → Trusts roots d
      → Trusts grown d

collect-some :
    {A : Type 0} (items : List (Option A)) (xs : List A)
    → collect items ≡ some xs
    → items ≡ map some xs
unfolding collect
collect-some [] [] h = refl
collect-some [] (a ∷ xs) h = cc
collect-some (none ∷ items) xs h = cc
collect-some (some a ∷ items) xs h = elim (Option-cases (collect items)) [
  | inl n ↦ let bad : none ≡ some xs = rw n at h in cc
  | inr (rest, e) ↦
      let same : some (a ∷ rest) ≡ some xs = rw e at h in
      let whole : a ∷ rest ≡ xs = some-injective _ _ same in
      ap (◌∷◌ (some a)) (collect-some items rest e) ∙ ap (map some) whole
]

module _ {Roots Verifier TlsConfig : Type 0} (pki : Pki Roots Verifier TlsConfig) where
  -- The certificates that stand in a file, at least one.
  abbrev pub HasCerts : ℕ → List (List ℕ) → Type 0
  HasCerts path certs =
      (bytes : List ℕ) × (pki.open_file path ≡ some bytes)
      × (pki.certs bytes ≡ map some certs)
      × (1 ≤ length certs)

  abbrev pub HasKey : ℕ → List ℕ → Type 0
  HasKey path key =
      (bytes : List ℕ) × (pki.open_file path ≡ some bytes)
      × (pki.private_key bytes ≡ some (some key))

  -- A chain and a key from their files, and a verifier of clients over roots that trust every
  -- certificate of the CA file.
  abbrev pub HasTls : (Roots → List ℕ → Type 0) → (ca cert key : ℕ) → TlsConfig → Type 0
  HasTls Trusts ca cert key tls_cfg =
      (chain : List (List ℕ)) × (private_key : List ℕ) × (cas : List (List ℕ)) × (roots : Roots)
      × (verifier : Verifier) × HasCerts cert chain
      × HasKey key private_key
      × HasCerts ca cas
      × All (Trusts roots) cas
      × (pki.build_verifier roots ≡ some verifier)
      × (pki.with_single_cert verifier chain private_key ≡ some tls_cfg)

  not_empty : (xs : List (List ℕ)) → is_empty xs ≡ false → 1 ≤ length xs
  not_empty [] h = cc
  not_empty (x ∷ xs) h = omega arith

  load_certs-HasCerts :
      (path : ℕ) (certs : List (List ℕ)) → load_certs pki path ≡ ok certs → HasCerts path certs
  unfolding load_certs
  load_certs-HasCerts path certs h =
      let (bytes, e1, h1) = >>=-eq-ok (or_fail (pki.open_file path) cert_file_failed) _ h in
      let (found, e2, h2) = >>=-eq-ok (or_fail (collect (pki.certs bytes)) bad_pem) _ h1 in
      let (some_certs, h3) = bail_if-eq-ok (is_empty found) no_certificates _ h2 in
      let same : found ≡ certs = ok-injective h3 in
      (
        bytes,
        or_fail-ok (pki.open_file path) cert_file_failed e1,
        collect-some (pki.certs bytes) found (or_fail-ok (collect (pki.certs bytes)) bad_pem e2)
            ∙ ap (map some) same,
        rw (← same) (not_empty found some_certs),
      )

  load_private_key-HasKey :
      (path : ℕ) (key : List ℕ) → load_private_key pki path ≡ ok key → HasKey path key
  unfolding load_private_key
  load_private_key-HasKey path key h =
      let (bytes, e1, h1) = >>=-eq-ok (or_fail (pki.open_file path) cert_file_failed) _ h in
      let (found, e2, h2) = >>=-eq-ok (or_fail (pki.private_key bytes) bad_private_key) _ h1 in
      (
        bytes,
        or_fail-ok (pki.open_file path) cert_file_failed e1,
        or_fail-ok (pki.private_key bytes) bad_private_key e2
            ∙ ap some (or_fail-ok found no_private_key h2),
      )

  module _ {Trusts : Roots → List ℕ → Type 0} (store : IsStore pki Trusts) where
    add_roots-keeps :
        (roots grown : Roots) (cas : List (List ℕ)) (d : List ℕ)
        → add_roots pki roots cas ≡ ok grown
        → Trusts roots d
        → Trusts grown d
    unfolding add_roots
    add_roots-keeps roots grown [] d h t = subst (λ r. Trusts r d) (ok-injective h) t
    add_roots-keeps roots grown (c ∷ cas) d h t =
        let (next, e, h1) = >>=-eq-ok (or_fail (pki.add roots c) bad_ca) _ h in
        add_roots-keeps next grown cas d h1
          (store.keeps roots next c d (or_fail-ok (pki.add roots c) bad_ca e) t)

    add_roots-Trusts :
        (roots grown : Roots) (cas : List (List ℕ))
        → add_roots pki roots cas ≡ ok grown
        → All (Trusts grown) cas
    unfolding add_roots
    add_roots-Trusts roots grown [] h = tt
    add_roots-Trusts roots grown (c ∷ cas) h =
        let (next, e, h1) = >>=-eq-ok (or_fail (pki.add roots c) bad_ca) _ h in
        let added : Trusts next c =
          store.adds roots next c (or_fail-ok (pki.add roots c) bad_ca e) in
        (add_roots-keeps next grown cas c h1 added, add_roots-Trusts next grown cas h1)

    pub build_server_config-HasTls :
        (ca cert key : ℕ) (tls_cfg : TlsConfig)
        → build_server_config pki ca cert key ≡ ok tls_cfg
        → HasTls Trusts ca cert key tls_cfg
    unfolding build_server_config
    build_server_config-HasTls ca cert key tls_cfg h =
        let (chain, e1, h1) = >>=-eq-ok (load_certs pki cert) _ h in
        let (private_key, e2, h2) = >>=-eq-ok (load_private_key pki key) _ h1 in
        let (cas, e3, h3) = >>=-eq-ok (load_certs pki ca) _ h2 in
        let (roots, e4, h4) = >>=-eq-ok (add_roots pki pki.empty_roots cas) _ h3 in
        let (verifier, e5, h5) = >>=-eq-ok (or_fail (pki.build_verifier roots) bad_verifier) _ h4 in
        (
          chain,
          private_key,
          cas,
          roots,
          verifier,
          load_certs-HasCerts cert chain e1,
          load_private_key-HasKey key private_key e2,
          load_certs-HasCerts ca cas e3,
          add_roots-Trusts pki.empty_roots roots cas e4,
          or_fail-ok (pki.build_verifier roots) bad_verifier e5,
          or_fail-ok (pki.with_single_cert verifier chain private_key) bad_server_cert h5,
        )
