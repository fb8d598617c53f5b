-- ===== src/Server/Exchange/Complete.antt =====
-- src/server.rs: the whole exchange inside the TLS stream, in one run of `drive_control_plane`.
use just_another_vpn_server.Prelude.{
  ℕ, suc, ◌≡◌, refl, sym, ap, subst, ◌∙◌, false, [], ◌∷◌, ◌++◌, Option, none, some, arith, length,
  drop, ok,
}
use just_another_vpn_server.Prelude.Maps.{lookup, lookup-insert}
use just_another_vpn_server.ControlChannel.{
  ClientKeyMethod2, try_pop_ascii, position_nul, pop_before,
}
use just_another_vpn_server.ControlChannel.RoundTrip.{
  IsMessage, client_message, message_size, drop-client_message,
}
use just_another_vpn_server.Session.{key_exchange, established}
use just_another_vpn_server.Session.Slots.{active_slot}
use just_another_vpn_server.Server.{Env, VpnServer, Locked}
use just_another_vpn_server.Server.Pool.{allocate_ip_v6, allocate_from}
use just_another_vpn_server.Server.Plane.{
  plane_step, plane_turn, drive_control_plane, choose_ip, key_method_reply, config_of, assigned_by,
  push_request,
}
use just_another_vpn_server.Server.Handshake.{plaintext, drive_control_plane-plane_loop}
use just_another_vpn_server.Server.Exchange.{
  agreed_slot, allocate_from-keeps, choose_ip-v6, allocate_from-same, plane_loop-on, plane_loop-off,
  keyed, Writes, key_method_turn, wanted, leased, push_reply, answered, drained, push_request_turn,
}

module _ {Conn : Type 0} (env : Env Conn) (addr : ℕ) where
  -- What the two messages write to the TLS connection.
  abbrev pub conn_after : ClientKeyMethod2 → ℕ → Option ℕ → Locked Conn → Conn
  conn_after km ip ip6 l =
      let reply = key_method_reply l.server.cfg l.sess.server_random1 l.sess.server_random2 in
      (env.rustls.write_all (env.rustls.write_all l.sess.tls.conn reply).1
        (push_reply env ip ip6 l)).1

  abbrev pub IsAnswered : ClientKeyMethod2 → ℕ → Option ℕ → Locked Conn → Locked Conn → Type 0
  IsAnswered km ip ip6 l end =
      (end.sess.state ≡ established)
      × (active_slot end.sess ≡ some (agreed_slot env.crypto km l.sess))
      × (end.sess.assigned_ip ≡ some ip)
      × (lookup end.server.routes ip ≡ some addr)
      × (end.sess.tls.conn ≡ conn_after km ip ip6 l)
      × (plaintext end ≡ [])

  leased-v6 :
      (ip : ℕ) (l : Locked Conn)
      → (allocate_ip_v6 (leased addr ip l).server).0 ≡ (allocate_ip_v6 l.server).0
  unfolding allocate_ip_v6
  leased-v6 ip l =
      let v : VpnServer Conn = l.server in
      let (next, last) = choose_ip-v6 (wanted l) v in
      ap (λ o. (allocate_from (leased addr ip l).server o).0) next
      ∙ allocate_from-same v (leased addr ip l).server v.next_pool_ip_v6 last

  answered-IsAnswered :
      (km : ClientKeyMethod2) (n ip : ℕ) (ip6 : Option ℕ) (l : Locked Conn)
      → drop n (plaintext l) ≡ push_request ++ 0 ∷ []
      → IsAnswered km ip ip6 l (answered env addr ip ip6 (drained 13 (keyed env km n l)))
  unfolding allocate_ip_v6
  answered-IsAnswered km n ip ip6 l text =
      let m : Locked Conn = leased addr ip (drained 13 (keyed env km n l)) in
      let routes : (allocate_ip_v6 m.server).1.routes ≡ m.server.routes =
        allocate_from-keeps m.server m.server.next_pool_ip_v6 in
      let found : lookup (allocate_ip_v6 m.server).1.routes ip ≡ some addr =
        ap (λ r. lookup r ip) routes
        ∙ lookup-insert (choose_ip (wanted l) l.server).1.routes ip addr in
      elim ip6
        as (λ o. IsAnswered km ip o l (answered env addr ip o (drained 13 (keyed env km n l)))) [
          | none ↦ (refl, refl, refl, found, refl, ap (drop 13) text)
          | some a ↦ (refl, refl, refl, found, refl, ap (drop 13) text)
        ]

  late_turn :
      (l : Locked Conn)
      → l.sess.state ≡ established
      → plaintext l ≡ []
      → plane_step env addr l ≡ (ok false, l)
  unfolding plane_step try_pop_ascii pop_before position_nul
  late_turn l state text =
      ap (λ st. plane_turn env addr st (plaintext l) l) state
      ∙ ap (λ p. plane_turn env addr established p l) text

  -- The exchange completes. A session waits for the client's keys and has none yet, and its plaintext
  -- is a whole key-method-2 message and a push request behind it. Writes to the TLS connection
  -- succeed, the decoder leaves the text of the request as it is, and an address is found: the one
  -- configured for the client, where no other session has it, or else the next of the pool; the IPv6
  -- pool, where there is one, is not exhausted. Then one run of `drive_control_plane` returns without
  -- an error, and the session is established: its active key is derived from the random values of
  -- both sides, it leases the address, packets for the address are routed to it, the key-method-2
  -- reply and behind it the push reply with the addresses are written to its TLS connection, and no
  -- plaintext is left.
  pub drive_control_plane-client_message :
      (km : ClientKeyMethod2) (ip : ℕ) (ip6 : Option ℕ) (l : Locked Conn)
      → IsMessage env.crypto km
      → env.crypto.from_utf8_lossy push_request ≡ push_request
      → Writes env
      → l.sess.state ≡ key_exchange
      → active_slot l.sess ≡ none
      → plaintext l ≡ client_message km (push_request ++ 0 ∷ [])
      → (choose_ip (assigned_by (config_of l.server.cfg l.sess.client_cn)) l.server).0 ≡ ok ip
      → (allocate_ip_v6 l.server).0 ≡ ok ip6
      → ((drive_control_plane env addr l).0 ≡ ok tt)
        × IsAnswered km ip ip6 l (drive_control_plane env addr l).1
  drive_control_plane-client_message km ip ip6 l message ascii writes state empty text got got6 =
      let n : ℕ = message_size km in
      let fuel : ℕ = length (plaintext l) in
      let rest : drop n (plaintext l) ≡ push_request ++ 0 ∷ [] =
        ap (drop n) text ∙ drop-client_message env.crypto km (push_request ++ 0 ∷ []) message in
      let m : Locked Conn = keyed env km n l in
      let end : Locked Conn = answered env addr ip ip6 (drained 13 m) in
      let facts : IsAnswered km ip ip6 l end = answered-IsAnswered km n ip ip6 l rest in
      let (is_established, key, lease, route, conn, left) = facts in
      let run : drive_control_plane env addr l ≡ (ok tt, end) =
        sym (drive_control_plane-plane_loop env addr (suc (suc (suc fuel))) l (omega arith))
        ∙ plane_loop-on env addr (suc (suc fuel)) l m
            (key_method_turn env addr km (push_request ++ 0 ∷ []) l writes message state empty text)
        ∙ plane_loop-on env addr (suc fuel) m end
            (push_request_turn env addr ip ip6 m writes ascii refl rest got (leased-v6 ip m ∙ got6))
        ∙ plane_loop-off env addr fuel end end (late_turn end is_established left) in
      (ap (λ r. r.0) run, subst (λ r. IsAnswered km ip ip6 l r.1) (sym run) facts)
