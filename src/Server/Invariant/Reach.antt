-- ===== src/Server/Invariant/Reach.antt =====
-- src/server.rs: the turns that the tasks of the server take, in any order, and the states that the
-- server reaches by them.
use just_another_vpn_server.Prelude.{
  ℕ, zero, suc, [], ◌≡◌, subst, Bool, true, false, some, if◌then◌else◌, List, ltb, ◌==◌, length,
  take, drop, none,
}
use just_another_vpn_server.Prelude.Bytes.{from_be}
use just_another_vpn_server.Prelude.Maps.{Map, lookup}
use just_another_vpn_server.Session.{Session, Transport, tcp}
use just_another_vpn_server.Server.{Env, VpnServer}
use just_another_vpn_server.Server.Dispatch.{receive_over}
use just_another_vpn_server.Server.Traffic.{run_worker, forward_tun_to_client}
use just_another_vpn_server.Server.Timers.{
  evict_idle, rekey_timer, ping, retransmit, shutdown_clients,
}
use just_another_vpn_server.Server.Stream.{close_session, read_loop, run_tcp_stream}
use just_another_vpn_server.Server.Invariant.{IsKeyed, AllKeyed}
use just_another_vpn_server.Server.Invariant.Sends.{ServerKeyed}
use just_another_vpn_server.Server.Invariant.Tables.{evict_idle-keyed, close_session-keyed}
use just_another_vpn_server.Server.Invariant.Incoming.{receive_over-keyed}
use just_another_vpn_server.Server.Invariant.Tasks.{
  run_worker-keyed, forward_tun_to_client-keyed, retransmit-keyed, rekey_timer-keyed, ping-keyed,
  shutdown_clients-keyed,
}

-- One turn of one task. What it takes from outside, the libraries' answers included, may be another
-- one at every turn.
pub data Turn {Conn : Type 0} : VpnServer Conn → VpnServer Conn → Type 0 where
  received :
      (env : Env Conn) (addr : ℕ) (transport : Transport) (pkt : List ℕ) (v : VpnServer Conn)
      → Turn v (receive_over env addr transport pkt v)
  stream_closed :
      (peer : ℕ) (v : VpnServer Conn) → Turn v (close_session peer (lookup v.sessions peer) v)
  worked : (env : Env Conn) (v : VpnServer Conn) → Turn v (run_worker env v)
  tunnelled :
      (env : Env Conn) (ip_pkt : List ℕ) (v : VpnServer Conn)
      → Turn v (forward_tun_to_client env ip_pkt v).1
  resent : (env : Env Conn) (addr : ℕ) (v : VpnServer Conn) → Turn v (retransmit env addr v)
  rekeyed :
      (env : Env Conn) (reneg addr : ℕ) (v : VpnServer Conn) → Turn v (rekey_timer env reneg addr v)
  pinged : (env : Env Conn) (addr : ℕ) (v : VpnServer Conn) → Turn v (ping env addr v)
  reaped :
      (idle_timeout now addr : ℕ) (v : VpnServer Conn) → Turn v (evict_idle idle_timeout now addr v)
  shut_down :
      (env : Env Conn) (addrs : List ℕ) (v : VpnServer Conn) → Turn v (shutdown_clients env addrs v)

pub data Reach {Conn : Type 0} (start : VpnServer Conn) : VpnServer Conn → Type 0 where
  here : Reach start start
  next : {v w : VpnServer Conn} → Reach start v → Turn v w → Reach start w

module _ {Conn : Type 0} where
  Turn-ServerKeyed : {v w : VpnServer Conn} → Turn v w → ServerKeyed v → ServerKeyed w
  Turn-ServerKeyed (received env addr transport pkt v) h =
      receive_over-keyed env addr transport pkt v h
  Turn-ServerKeyed (stream_closed peer v) h = close_session-keyed peer (lookup v.sessions peer) v h
  Turn-ServerKeyed (worked env v) h = run_worker-keyed env v h
  Turn-ServerKeyed (tunnelled env ip_pkt v) h = forward_tun_to_client-keyed env ip_pkt v h
  Turn-ServerKeyed (resent env addr v) h = retransmit-keyed env addr v h
  Turn-ServerKeyed (rekeyed env reneg addr v) h = rekey_timer-keyed env reneg addr v h
  Turn-ServerKeyed (pinged env addr v) h = ping-keyed env addr v h
  Turn-ServerKeyed (reaped idle_timeout now addr v) h = evict_idle-keyed idle_timeout now addr v h
  Turn-ServerKeyed (shut_down env addrs v) h = shutdown_clients-keyed env addrs v h

  Reach-ServerKeyed : {start v : VpnServer Conn} → ServerKeyed start → Reach start v → ServerKeyed v
  Reach-ServerKeyed h here = h
  Reach-ServerKeyed h (next reach turn) = Turn-ServerKeyed turn (Reach-ServerKeyed h reach)

  no_sessions-AllKeyed : (sessions : Map (Session Conn)) → sessions ≡ [] → AllKeyed sessions
  no_sessions-AllKeyed sessions e addr sess found =
      let bad : none ≡ some sess = subst (λ m. lookup m addr ≡ some sess) e found in cc

  -- From a server without sessions, as it starts, any tasks may take turns in any order, with any
  -- packets, answers of the network and of the libraries, and clock values. In every state that is
  -- reached so, a session that waits for the push request has a key in its active slot, and one that
  -- is established or closed has an active key and a tunnel address.
  pub Reach-IsKeyed :
      (start v : VpnServer Conn) (addr : ℕ) (sess : Session Conn)
      → start.sessions ≡ []
      → Reach start v
      → lookup v.sessions addr ≡ some sess
      → IsKeyed sess
  Reach-IsKeyed start v addr sess empty reach found =
      Reach-ServerKeyed (no_sessions-AllKeyed start.sessions empty) reach addr sess found

  -- One of four states that are all reached.
  one_of :
      {start a b c d : VpnServer Conn} (first second third : Bool)
      → Reach start a
      → Reach start b
      → Reach start c
      → Reach start d
      → Reach start (if first then a else if second then b else if third then c else d)
  one_of true second third ha hb hc hd = ha
  one_of false true third ha hb hc hd = hb
  one_of false false true ha hb hc hd = hc
  one_of false false false ha hb hc hd = hd

  -- The reader of a TCP stream takes turns of these kinds.
  read_loop-Reach :
      (env : Env Conn) (fuel peer : ℕ) (bytes : List ℕ) (start v : VpnServer Conn)
      → Reach start v
      → Reach start (read_loop env fuel peer bytes v)
  unfolding read_loop
  read_loop-Reach env zero peer bytes start v h = h
  read_loop-Reach env (suc fuel) peer bytes start v h =
      let len : ℕ = from_be (take 2 bytes) in
      let pkt : List ℕ = take len (drop 2 bytes) in
      one_of (ltb (length bytes) 2) (len == 0) (ltb (length (drop 2 bytes)) len) h
        (read_loop-Reach env fuel peer (drop 2 bytes) start v h) h
        (read_loop-Reach env fuel peer (drop len (drop 2 bytes)) start
          (receive_over env peer (tcp peer) pkt v) (next h (received env peer (tcp peer) pkt v)))

  pub run_tcp_stream-Reach :
      (env : Env Conn) (peer : ℕ) (bytes : List ℕ) (v : VpnServer Conn)
      → Reach v (run_tcp_stream env peer bytes v)
  unfolding run_tcp_stream
  run_tcp_stream-Reach env peer bytes v =
      next (read_loop-Reach env (length bytes) peer bytes v v here) (stream_closed peer _)
