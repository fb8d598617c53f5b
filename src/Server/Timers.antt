-- ===== src/Server/Timers.antt =====
-- src/server.rs: the tasks that `run` spawns, one turn for one address each, and `shutdown_clients`.
use just_another_vpn_server.Prelude.{
  ℕ, ◌+◌, ◌-◌, ◌%◌, Bool, true, false, not, List, [], ◌∷◌, Option, none, some, ltb, leb,
  if◌then◌else◌, ◌&&◌, ok, err,
}
use just_another_vpn_server.Prelude.Steps.{Step, ◌>>=◌, ◌>>◌, get, lift}
use just_another_vpn_server.Prelude.Maps.{Map, lookup, insert, remove}
use just_another_vpn_server.Protocol.{ping_payload}
use just_another_vpn_server.Session
use just_another_vpn_server.Session.{control_base_rto, KeySlot, RekeyTrack}
use just_another_vpn_server.Session.Control.{stale_unacked, make_soft_reset_init}
use just_another_vpn_server.Session.Slots.{active_slot}
use just_another_vpn_server.Server.{Env, VpnServer, Locked}
use just_another_vpn_server.Server.Tls
use just_another_vpn_server.Server.Wire.{
  on_session, set_session, on_tls, key_id_or_zero, wrap_with, send, send_and_track, flush_outgoing,
}
use just_another_vpn_server.Server.Dispatch.{with_locked, is_established}
use just_another_vpn_server.Server.Traffic.{forward_at}

-- "RESTART,1", with its NUL
abbrev pub restart : List ℕ
restart = 82 ∷ 69 ∷ 83 ∷ 84 ∷ 65 ∷ 82 ∷ 84 ∷ 44 ∷ 49 ∷ 0 ∷ []

abbrev pub remove_known : Map ℕ → Option ℕ → Map ℕ
remove_known m none = m
remove_known m (some k) = remove m k

module _ {Conn : Type 0} where
  unfoldable pub evict : ℕ → Session.Session Conn → VpnServer Conn → VpnServer Conn
  evict addr sess self = record self {
    sessions = remove self.sessions addr;
    routes = remove_known self.routes sess.assigned_ip;
    routes_v6 = remove_known self.routes_v6 sess.assigned_ip_v6;
    peers = remove self.peers sess.peer_id;
    data_routes = remove self.data_routes sess.peer_id;
  }

  abbrev pub evict_if : ℕ → ℕ → ℕ → Option (Session.Session Conn) → VpnServer Conn → VpnServer Conn
  evict_if idle_timeout now addr none self = self
  evict_if idle_timeout now addr (some sess) self =
      if leb idle_timeout (now - sess.last_seen) then evict addr sess self else self

  -- The idle reaper.
  unfoldable pub evict_idle : ℕ → ℕ → ℕ → VpnServer Conn → VpnServer Conn
  evict_idle idle_timeout now addr self =
      evict_if idle_timeout now addr (lookup self.sessions addr) self

module _ {Conn : Type 0} (env : Env Conn) where
  -- The packets to send again, in new envelopes; one that cannot be wrapped is left out.
  unfoldable pub wrap_all :
      VpnServer Conn → List (List ℕ) → Session.Session Conn → List (List ℕ) × Session.Session Conn
  wrap_all self [] sess = ([], sess)
  wrap_all self (inner ∷ more) sess =
      let r = wrap_with env self.tls_crypt self.tls_auth inner sess in
      let rest = wrap_all self more r.1 in
      (elim r.0 [ ok wire ↦ wire ∷ rest.0 | err e ↦ rest.0 ], rest.1)

  unfoldable pub send_all : Session.Transport → List (List ℕ) → VpnServer Conn → VpnServer Conn
  send_all to [] self = self
  send_all to (wire ∷ more) self = send_all to more (send env to wire self).1

  abbrev pub retransmit_at : ℕ → Option (Session.Session Conn) → VpnServer Conn → VpnServer Conn
  retransmit_at addr none self = self
  retransmit_at addr (some sess) self =
      let r = stale_unacked sess env.now control_base_rto in
      let w = wrap_all self r.1 r.0 in
      send_all sess.transport w.0 (record self { sessions = insert self.sessions addr w.1 })

  -- The retransmission timer.
  unfoldable pub retransmit : ℕ → VpnServer Conn → VpnServer Conn
  retransmit addr self = retransmit_at addr (lookup self.sessions addr) self

  unfoldable pub init_rekey : Step (Locked Conn) (Unit {0})
  init_rekey = do
    l ← get
    let active_key_id = key_id_or_zero (active_slot l.sess)
    let new_key_id = (active_key_id + 1) % 8
    tls ← lift (Tls.new env.rustls)
    set_session (λ s. Session.start_rekey s new_key_id tls env.random1 env.random2)
    set_session (λ s. record s { last_rekey_at = env.now })
    pkt ← on_session (λ s. make_soft_reset_init s new_key_id)
    send_and_track env pkt

  abbrev pub no_track : Option (RekeyTrack Conn) → Bool
  no_track none = true
  no_track (some rk) = false

  abbrev pub rekey_due : ℕ → Session.Session Conn → Bool
  rekey_due reneg sess =
      (is_established sess.state && no_track sess.rekey)
      && not (ltb (env.now - sess.last_rekey_at) reneg)

  abbrev pub rekey_at : ℕ → ℕ → Option (Session.Session Conn) → VpnServer Conn → VpnServer Conn
  rekey_at reneg addr none self = self
  rekey_at reneg addr (some sess) self =
      if rekey_due reneg sess then (with_locked addr sess init_rekey self).1 else self

  -- The rekey timer.
  unfoldable pub rekey_timer : ℕ → ℕ → VpnServer Conn → VpnServer Conn
  rekey_timer reneg addr self = rekey_at reneg addr (lookup self.sessions addr) self

  abbrev pub ping_at : ℕ → Option (Session.Session Conn) → VpnServer Conn → VpnServer Conn
  ping_at addr none self = self
  ping_at addr (some sess) self =
      if is_established sess.state
      then (forward_at env addr (some sess) ping_payload self).1
      else self

  -- The keepalive timer. Behind its test of the state it does what `forward_tun_to_client` does.
  unfoldable pub ping : ℕ → VpnServer Conn → VpnServer Conn
  ping addr self = ping_at addr (lookup self.sessions addr) self

  unfoldable pub restart_client : Step (Locked Conn) (Unit {0})
  restart_client = on_tls (Tls.send_plaintext env.rustls restart) >> flush_outgoing env

  abbrev pub shutdown_at : ℕ → Option (Session.Session Conn) → VpnServer Conn → VpnServer Conn
  shutdown_at addr none self = self
  shutdown_at addr (some sess) self =
      if is_established sess.state then (with_locked addr sess restart_client self).1 else self

  unfoldable pub shutdown_clients : List ℕ → VpnServer Conn → VpnServer Conn
  shutdown_clients [] self = self
  shutdown_clients (addr ∷ more) self =
      shutdown_clients more (shutdown_at addr (lookup self.sessions addr) self)
