-- ===== src/Server/Invariant.antt =====
-- src/session.rs and src/server.rs: a predicate on the sessions of the server. One that waits for the
-- push request has an active key, and one that is established or closed has a tunnel address too.
pub mod Sessions
pub mod Sends
pub mod Handlers
pub mod Packets
pub mod Tables
pub mod Incoming
pub mod Tasks
pub mod Reach
mod Tests
use just_another_vpn_server.Prelude.{ℕ, Option, ◌≡◌, some}
use just_another_vpn_server.Prelude.Maps.{Map, lookup}
use just_another_vpn_server.Session.{
  Session, State, KeySlot, waiting_hard_reset, handshaking, key_exchange, push_pending, established,
  closed,
}
use just_another_vpn_server.Session.Slots.{active_slot}
use just_another_vpn_server.Server.{VpnServer, Locked}

abbrev pub HasValue : {A : Type 0} → Option A → Type 0
HasValue {A} o = (a : A) × (o ≡ some a)

abbrev pub KeyedAt : State → Option KeySlot → Option ℕ → Type 0
KeyedAt waiting_hard_reset slot ip = Unit
KeyedAt handshaking slot ip = Unit
KeyedAt key_exchange slot ip = Unit
KeyedAt push_pending slot ip = HasValue slot
KeyedAt established slot ip = HasValue slot × HasValue ip
KeyedAt closed slot ip = HasValue slot × HasValue ip

abbrev pub IsKeyed : {Conn : Type 0} → Session Conn → Type 0
IsKeyed sess = KeyedAt sess.state (active_slot sess) sess.assigned_ip

-- Every session of the table, and the locked one too.
abbrev pub AllKeyed : {Conn : Type 0} → Map (Session Conn) → Type 0
AllKeyed {Conn} sessions =
    (addr : ℕ) (sess : Session Conn) → lookup sessions addr ≡ some sess → IsKeyed sess

abbrev pub LockedKeyed : {Conn : Type 0} → Locked Conn → Type 0
LockedKeyed l = IsKeyed l.sess × AllKeyed l.server.sessions
