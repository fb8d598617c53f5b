-- ===== src/Server.antt =====
-- src/server.rs: the state that the handlers share. IPv4 and IPv6 addresses, socket addresses and
-- clock values are numbers. What reaches the network, a data worker or the TUN writer is logged.
pub mod Push
pub mod Certs
pub mod Tls
pub mod Wire
pub mod Pool
pub mod Plane
pub mod Rekeying
pub mod Dispatch
pub mod Traffic
pub mod Stream
pub mod Framing
pub mod Timers
pub mod Tun
pub mod Keys
pub mod Startup
pub mod StartTls
pub mod StartNat
pub mod Started
pub mod Reliable
pub mod Sending
pub mod Envelope
pub mod Handshake
pub mod Exchange
pub mod Gate
pub mod Once
pub mod Leases
pub mod Delivery
pub mod Invariant
mod Fixtures
mod ExchangeTests
mod Tests
mod DataTests
mod StreamTests
mod StartTests
use just_another_vpn_server.Prelude.{ℕ, Bool, List, Option, Result}
use just_another_vpn_server.Prelude.Maps.{Map}
use just_another_vpn_server.Prelude.Bytes.{Buf}
use just_another_vpn_server.Primitives.{Primitives}
use just_another_vpn_server.Config.{ServerConfig}
use just_another_vpn_server.TlsAuth.{TlsAuthKey}
use just_another_vpn_server.TlsCrypt.{TlsCryptKey}
use just_another_vpn_server.Session.{Session, Transport}

-- What the server calls of rustls on a connection. A call that may fail and the connection after it
-- are returned together.
pub record Rustls (Conn : Type 0) : Type 0 where
  -- `ServerConnection::new`
  pub accept : Result Conn
  pub read_tls : Conn → List ℕ → Result ℕ × Conn
  pub process_new_packets : Conn → Result (Unit {0}) × Conn
  -- One `read` of the plaintext that is available: at most 4096 bytes, `none` for an error.
  pub read : Conn → Option (List ℕ) × Conn
  -- A bound on the reads that return plaintext before the next packets are processed.
  pub reads : Conn → ℕ
  pub write_tls : Conn → List ℕ × Conn
  pub is_handshaking : Conn → Bool
  pub write_all : Conn → List ℕ → Result (Unit {0}) × Conn
  -- The certificates that the peer has sent, its own one first.
  pub peer_certificates : Conn → Option (List (List ℕ))
  -- `X509Certificate::from_der`, and the common names of the subject, `none` for one that is no
  -- string.
  pub from_der : List ℕ → Option (List (Option (List ℕ)))

-- What one call of a handler takes from outside: the libraries, the clock, random bytes, and
-- whether the network accepts a packet.
pub record Env (Conn : Type 0) : Type 0 where
  pub bytes : Buf
  pub crypto : Primitives
  pub rustls : Rustls Conn
  pub now : ℕ
  pub unix_timestamp : ℕ
  pub random_session_id : ℕ
  pub random1 : List ℕ
  pub random2 : List ℕ
  pub accepts : Transport → List ℕ → Bool
  pub show_v6 : ℕ → List ℕ

-- `sent` is what went to the network, `queued` what went to the data worker of an address, and
-- `tun_out` what went to the TUN writer, oldest first. `data_routes` has the address of the session
-- whose worker gets the packets of a peer id.
pub record VpnServer (Conn : Type 0) : Type 0 where
  pub cfg : ServerConfig
  pub sessions : Map (Session Conn)
  pub routes : Map ℕ
  pub routes_v6 : Map ℕ
  pub peers : Map ℕ
  pub next_peer_id : ℕ
  pub next_pool_ip : ℕ
  pub pool_end : ℕ
  pub next_pool_ip_v6 : Option ℕ
  pub pool_end_v6 : ℕ
  pub data_routes : Map ℕ
  pub tls_crypt : Option TlsCryptKey
  pub tls_auth : Option TlsAuthKey
  pub sent : List (Transport × List ℕ)
  pub queued : List (ℕ × List ℕ)
  pub tun_out : List (List ℕ)

-- A handler that has locked a session.
pub record Locked (Conn : Type 0) : Type 0 where
  pub sess : Session Conn
  pub server : VpnServer Conn
