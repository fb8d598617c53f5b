-- ===== src/Server/Tls.antt =====
-- src/tls.rs: `TlsSession`, the TLS connection of a session and the plaintext received over it.
use just_another_vpn_server.Prelude.{
  ℕ, zero, suc, List, [], ◌∷◌, ◌++◌, Option, none, some, drop, length, is_empty, ◌==◌,
  if◌then◌else◌, Result, ok, err,
}
use just_another_vpn_server.Prelude.Steps.{Step, ◌>>=◌, ◌>>◌, done, modify}
use just_another_vpn_server.Session.{TlsSession}
use just_another_vpn_server.Server.Certs.{extract_common_name}
use just_another_vpn_server.Server.{Rustls}

module _ {Conn : Type 0} where
  -- A call on the connection.
  abbrev pub on_conn : {A : Type 0} → (Conn → Result A × Conn) → Step (TlsSession Conn) A
  on_conn call self = let r = call self.conn in (r.0, record self { conn = r.1 })

  module _ (lib : Rustls Conn) where
    unfoldable pub new : Result (TlsSession Conn)
    new = elim lib.accept [
      | ok conn ↦ ok (record { conn = conn; plaintext_in = [] })
      | err e ↦ err e
    ]

    -- `read_tls` reads at least a byte of a slice that is not empty, or returns 0, so that the
    -- length of the bytes is fuel enough.
    unfoldable pub feed_loop : ℕ → List ℕ → Step (TlsSession Conn) (Unit {0})
    feed_loop zero bytes = done
    feed_loop (suc fuel) bytes =
        let rest = feed_loop fuel in
        if is_empty bytes
        then done
        else (on_conn (λ c. lib.read_tls c bytes) >>= λ n.
            if n == 0 then done else (on_conn lib.process_new_packets >> rest (drop n bytes)))

    unfoldable pub drain_loop : ℕ → TlsSession Conn → TlsSession Conn
    drain_loop zero self = self
    drain_loop (suc fuel) self =
        let r = lib.read self.conn in
        let after = record self { conn = r.1 } in
        elim r.0 [
          | none ↦ after
          | some [] ↦ after
          | some (b ∷ bs) ↦
              drain_loop fuel (record after { plaintext_in = after.plaintext_in ++ b ∷ bs })
        ]

    unfoldable pub feed : List ℕ → Step (TlsSession Conn) (Unit {0})
    feed bytes =
        feed_loop (length bytes) bytes >> modify λ self. drain_loop (suc (lib.reads self.conn)) self

    unfoldable pub take_outgoing : TlsSession Conn → List ℕ × TlsSession Conn
    take_outgoing self = let r = lib.write_tls self.conn in (r.0, record self { conn = r.1 })

    -- The name that `finalize_keys` takes from the first certificate.
    abbrev leaf_name : Option (List (List ℕ)) → Option (Result (Option (List ℕ)))
    leaf_name none = none
    leaf_name (some []) = none
    leaf_name (some (leaf ∷ chain)) = some (extract_common_name lib.from_der leaf)

    unfoldable pub peer_name : Conn → Option (Result (Option (List ℕ)))
    peer_name conn = leaf_name (lib.peer_certificates conn)

    unfoldable pub send_plaintext : List ℕ → Step (TlsSession Conn) (Unit {0})
    send_plaintext bytes = on_conn λ c. lib.write_all c bytes
