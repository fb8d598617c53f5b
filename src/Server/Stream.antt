-- ===== src/Server/Stream.antt =====
-- src/server.rs: `run_tcp_stream`. A stream is the bytes that it brings until it ends; whether it
-- takes a write is a parameter.
use just_another_vpn_server.Prelude.{
  ℕ, zero, suc, ◌%◌, ◌^◌, Bool, List, [], ◌∷◌, ◌++◌, Option, none, some, take, drop, length, ltb,
  ◌==◌, if◌then◌else◌,
}
use just_another_vpn_server.Prelude.Bytes.{to_be, from_be}
use just_another_vpn_server.Prelude.Maps.{lookup}
use just_another_vpn_server.Session.{Session, tcp}
use just_another_vpn_server.Server.{Env, VpnServer}
use just_another_vpn_server.Server.Dispatch.{receive_over}
use just_another_vpn_server.Server.Timers.{evict}

-- The length, in two bytes, and the packet.
unfoldable pub framed : List ℕ → List ℕ
framed bytes = to_be 2 (length bytes % 2 ^ 16) ++ bytes

-- The writer task: what it has written when its queue is closed or a write fails.
unfoldable pub write_queue : (List ℕ → Bool) → List (List ℕ) → List ℕ
unfolding framed
write_queue accepts [] = []
write_queue accepts (bytes ∷ more) =
    let rest = write_queue accepts more in
    if ltb 65535 (length bytes)
    then rest
    else if accepts (framed bytes)
    then framed bytes ++ rest
    else []

abbrev pub close_session :
    {Conn : Type 0} → ℕ → Option (Session Conn) → VpnServer Conn → VpnServer Conn
close_session peer none self = self
close_session peer (some sess) self = evict peer sess self

module _ {Conn : Type 0} (env : Env Conn) where
  -- The reader's loop. Each turn but the last takes two bytes, so that their number is fuel enough.
  unfoldable pub read_loop : ℕ → ℕ → List ℕ → VpnServer Conn → VpnServer Conn
  read_loop zero peer bytes self = self
  read_loop (suc fuel) peer bytes self =
      let next = read_loop fuel peer in
      let len = from_be (take 2 bytes) in
      let rest = drop 2 bytes in
      if ltb (length bytes) 2
      then self
      else if len == 0
      then next rest self
      else if ltb (length rest) len
      then self
      else next (drop len rest) (receive_over env peer (tcp peer) (take len rest) self)

  -- Both ends: the stream is read to its end, then the session is evicted.
  unfoldable pub run_tcp_stream : ℕ → List ℕ → VpnServer Conn → VpnServer Conn
  unfolding read_loop
  run_tcp_stream peer bytes self =
      let read = read_loop (length bytes) peer bytes self in
      close_session peer (lookup read.sessions peer) read
