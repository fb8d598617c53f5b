-- ===== src/Server/Certs.antt =====
-- src/tls.rs: the TLS configuration from the three PEM files, and the common name of a certificate.
-- Files, the PEM and X.509 parsers and rustls are parameters.
use just_another_vpn_server.Prelude.{
  ℕ, List, [], ◌∷◌, Option, none, some, is_empty, Result, ok, Error, ◌>>=◌, ◌>>◌, bail_if, or_fail,
}
use Error.{
  cert_file_failed, bad_pem, no_certificates, bad_private_key, no_private_key, bad_ca, bad_verifier,
  bad_server_cert, bad_certificate,
}

-- What the loading calls. A certificate and a key are their DER bytes, a root store is a value of
-- `Roots`, a client verifier one of `Verifier` and a server's configuration one of `TlsConfig`.
pub record Pki (Roots Verifier TlsConfig : Type 0) : Type 0 where
  -- `File::open`, with the bytes that the file has.
  pub open_file : ℕ → Option (List ℕ)
  -- `rustls_pemfile::certs`: an item is `none` where its section cannot be read.
  pub certs : List ℕ → List (Option (List ℕ))
  -- `rustls_pemfile::private_key`: `none` where the file cannot be read, and else the key, if any.
  pub private_key : List ℕ → Option (Option (List ℕ))
  pub empty_roots : Roots
  pub add : Roots → List ℕ → Option Roots
  -- `WebPkiClientVerifier::builder(roots).build()`
  pub build_verifier : Roots → Option Verifier
  -- `ServerConfig::builder().with_client_cert_verifier(..).with_single_cert(..)`
  pub with_single_cert : Verifier → List (List ℕ) → List ℕ → Option TlsConfig

-- `collect` on an iterator of results.
unfoldable pub collect : {A : Type 0} → List (Option A) → Option (List A)
collect [] = some []
collect (none ∷ items) = none
collect (some a ∷ items) = elim (collect items) [ none ↦ none | some rest ↦ some (a ∷ rest) ]

-- The first name, where it is a string.
abbrev first_name : List (Option (List ℕ)) → Option (List ℕ)
first_name [] = none
first_name (name ∷ names) = name

-- `from_der` has the common names in the subject of the certificate that the bytes are.
unfoldable pub extract_common_name :
    (List ℕ → Option (List (Option (List ℕ)))) → List ℕ → Result (Option (List ℕ))
extract_common_name from_der cert_der = do
  names ← or_fail (from_der cert_der) bad_certificate
  ok (first_name names)

module _ {Roots Verifier TlsConfig : Type 0} (pki : Pki Roots Verifier TlsConfig) where
  unfoldable pub load_certs : ℕ → Result (List (List ℕ))
  unfolding collect
  load_certs path = do
    f ← or_fail (pki.open_file path) cert_file_failed
    certs ← or_fail (collect (pki.certs f)) bad_pem
    bail_if (is_empty certs) no_certificates
    ok certs

  unfoldable pub load_private_key : ℕ → Result (List ℕ)
  load_private_key path = do
    f ← or_fail (pki.open_file path) cert_file_failed
    found ← or_fail (pki.private_key f) bad_private_key
    or_fail found no_private_key

  -- The loop over the certificates of the CA file.
  unfoldable pub add_roots : Roots → List (List ℕ) → Result Roots
  add_roots roots [] = ok roots
  add_roots roots (c ∷ more) = or_fail (pki.add roots c) bad_ca >>= λ grown. add_roots grown more

  unfoldable pub build_server_config : ℕ → ℕ → ℕ → Result TlsConfig
  unfolding load_certs load_private_key add_roots
  build_server_config ca cert key = do
    cert_chain ← load_certs cert
    private_key ← load_private_key key
    cas ← load_certs ca
    roots ← add_roots pki.empty_roots cas
    client_verifier ← or_fail (pki.build_verifier roots) bad_verifier
    or_fail (pki.with_single_cert client_verifier cert_chain private_key) bad_server_cert
