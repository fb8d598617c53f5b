-- ===== src/Lib.antt =====
-- A model of an OpenVPN-compatible server written in Rust, and theorems about it.
--
-- A datagram reaches `VpnServer::run` in src/server.rs. A data packet goes to the worker of its
-- peer id, which looks up a key slot of the session, opens the packet, checks the slot's replay
-- window and passes the plaintext to the TUN writer. A control packet is first taken out of its
-- tls-crypt or tls-auth envelope; `handle_control_packet` then starts a session or hands the packet
-- to the session of the sender's address: acknowledgements, the TLS stream, and inside it the key
-- exchange and the push request; a rekey runs the same exchange on a second TLS connection. Packets
-- from the TUN are sealed with the active slot of the session that leases the destination address.
-- Timers send unacknowledged packets again, start rekeys, send pings and remove idle sessions.
--
-- The files, and the code that they model:
--   Replay          src/replay.rs: `ReplayWindow::check_and_set`, on numbers as bitmaps.
--   Protocol        src/protocol.rs: `OpCode`, `ControlPacket::parse` and `encode` (through the
--                   interface `Buf` of the bytes crate), `DataPacketV2::parse` (`parse_data`).
--   TlsAuth         src/tls_auth.rs; TlsCrypt src/tls_crypt.rs: `wrap` and `unwrap`.
--   Crypto          src/crypto.rs: `DataCipher`, `seal`, `open` (`open_wire`).
--   Prf             src/prf.rs: `p_hash`, `tls10_prf`, `derive_openvpn_key_data`.
--   ControlChannel  src/control_channel.rs: `try_parse`, `try_pop_ascii`, `read_lp_string`,
--                   `write_lp_string`; Announce has the strings the server announces.
--   Session         src/session.rs: the state of a client; Control has the reliability layer and
--                   the packets it makes, Slots the two key slots and `build_data_packet`.
--   Config          src/config.rs: the two structs; Load has the defaults and `ServerConfig::load`.
--   StaticKey       src/static_key.rs: `parse_static_key_text`, on characters; Render describes key
--                   files.
--   Nat             src/nat.rs: `enable_masquerade`, the guard's `drop`, the route table (Routes),
--                   the CIDR text (Cidr); Host has what it relies on of the host.
--   Server          src/server.rs: the shared state; Tls and Certs (src/tls.rs), Wire (envelope,
--                   sending, `flush_outgoing`), Keys and Startup (`VpnServer::new`), Pool, Push
--                   (`build_push_reply`), Plane (`drive_control_plane`), Rekeying, Dispatch
--                   (`handle_control_packet` and the receive loop), Traffic (the data plane),
--                   Stream (`run_tcp_stream`), Tun (src/tun_dev.rs and the writer to the device),
--                   Timers (the other tasks of `run`).
--   Primitives      the cryptographic crates and the lossy decoding of text, as an interface with
--                   documented laws, and functions that satisfy them.
--   Prelude         shared helpers: lists, results, bits, big-endian numbers, maps, and steps that
--                   change a state and may fail, where a change made before the failure stays.
--   The other modules are named for what they prove: Server.Gate, Once and Delivery are about the
--   data plane, Envelope about the receive loop, Sending and Reliable about what is sent, Handshake
--   and Exchange about `drive_control_plane`, Leases about pools, Started about start-up, Framing
--   about TCP streams. Server.Invariant has a step relation of all tasks (Reach) and what holds in
--   every state that they reach.
--
-- A byte string is a list of numbers. Widths are written out: ids wrap at 2 ^ 32, peer ids have 24
-- bits. The clock, random bytes and the network's answer to a send are arguments (`Env`); the clock
-- stands still during one call of a handler. A handler runs alone: the locks of the source are the
-- boundaries of its steps. A TCP stream is read to its end with one `Env`. A rustls connection is the type `Conn` with the calls in `Rustls`.
--
-- Fuel: `p_hash` gets as many rounds as bytes of output, and a round writes at least one; `chunks`
-- and `feed` get the length of their data, of which each turn takes a part; `drive_control_plane`
-- gets the length of the plaintext and one more, and a turn that goes on takes at least a byte;
-- `decimal` gets the number and one more, and a turn divides by ten.
--
-- A string is its bytes; in StaticKey and Nat, where the code asks for white space, it is its
-- characters. The TCP reader gets the bytes of the stream as fuel, and a turn takes at least two.
--
-- Not modelled: src/main.rs (arguments and logging), src/nat.rs and src/tun_dev.rs for other systems
-- than Linux, where they only fail, and the waiting of the tasks, of which one turn for one address
-- is modelled.
pub mod Prelude
pub mod StaticKey
pub mod Nat
pub mod Replay
pub mod Protocol
pub mod Primitives
pub mod TlsAuth
pub mod TlsCrypt
pub mod Crypto
pub mod Prf
pub mod ControlChannel
pub mod Session
pub mod Config
pub mod Server
