-- ===== src/Server/Exchange.antt =====
-- src/server.rs: the whole exchange inside the TLS stream, from the client's key-method-2 message to
-- the answer of its push request: each turn of the loop. Complete has the loop.
pub mod Complete
use just_another_vpn_server.Prelude.{
  ℕ, suc, ◌≡◌, refl, sym, ap, subst, ◌∙◌, true, false, List, [], ◌∷◌, ◌++◌, Option, none, some,
  arith, length, drop, ltb, ok, Bool-cases, inl, inr,
}
use just_another_vpn_server.Prelude.Steps.{continue_with}
use just_another_vpn_server.Prelude.Bytes.{to_be}
use just_another_vpn_server.Prelude.Maps.{lookup, has_key, lookup-insert}
use just_another_vpn_server.Primitives.{Primitives}
use just_another_vpn_server.Config.{IpAddr, v4, v6}
use just_another_vpn_server.ControlChannel.{
  ClientKeyMethod2, ready, try_parse, try_pop_ascii, position_nul, pop_before,
}
use just_another_vpn_server.ControlChannel.RoundTrip.{
  IsMessage, client_message, message_size, try_parse-client_message, drop-client_message,
}
use just_another_vpn_server.Prf.{derive_openvpn_key_data}
use just_another_vpn_server.Session.{
  Session, TlsSession, KeySlot, key_exchange, push_pending, established,
}
use just_another_vpn_server.Session.Slots.{active_slot, new_slot, install_prf_slot}
use just_another_vpn_server.Server.{Env, VpnServer, Locked}
use just_another_vpn_server.Server.Tls.{send_plaintext}
use just_another_vpn_server.Server.Pool.{allocate_ip, allocate_ip_v6, allocate_from}
use just_another_vpn_server.Server.Push.{build_push_reply}
use just_another_vpn_server.Server.Plane.{
  plane_step, plane_turn, on_key_method, on_message, plane_loop, drive_control_plane,
  handle_key_method, handle_message, answer_push_request, choose_ip, note_v4, note_v6,
  drain_plaintext, key_method_reply, config_of, routes_by, assigned_by, push_request,
}
use just_another_vpn_server.Server.Handshake.{plaintext, drive_control_plane-plane_loop}

module _ {Conn : Type 0} where
  -- The slot that both sides derive from the client's message and the session's random values.
  abbrev pub agreed_slot : Primitives → ClientKeyMethod2 → Session Conn → KeySlot
  agreed_slot lib km sess = new_slot 0 (
      derive_openvpn_key_data lib km.pre_master km.random1 sess.server_random1 km.random2
        sess.server_random2 (to_be 8 sess.client_session_id) (to_be 8 sess.server_session_id))

  pub allocate_from-keeps :
      (v : VpnServer Conn) (o : Option ℕ) → (allocate_from v o).1.routes ≡ v.routes
  allocate_from-keeps v none = refl
  allocate_from-keeps v (some ip) = elim (Bool-cases (ltb v.pool_end_v6 ip)) [
    | inl t ↦ rw t refl
    | inr t ↦ rw t refl
  ]

  -- Choosing the IPv4 address leaves the IPv6 pool alone.
  pub choose_ip-v6 :
      (a : Option IpAddr) (v : VpnServer Conn)
      → ((choose_ip a v).1.next_pool_ip_v6 ≡ v.next_pool_ip_v6)
        × ((choose_ip a v).1.pool_end_v6 ≡ v.pool_end_v6)
  unfolding choose_ip allocate_ip
  choose_ip-v6 none v = elim (Bool-cases (ltb v.pool_end v.next_pool_ip)) [
    | inl t ↦ rw t (refl, refl)
    | inr t ↦ rw t (refl, refl)
  ]
  choose_ip-v6 (some (v4 ip)) v = elim (Bool-cases (has_key v.routes ip)) [
    | inl t ↦ rw t (refl, refl)
    | inr t ↦ rw t (refl, refl)
  ]
  choose_ip-v6 (some (v6 ip)) v = (refl, refl)

  pub allocate_from-same :
      (v w : VpnServer Conn) (o : Option ℕ)
      → w.pool_end_v6 ≡ v.pool_end_v6
      → (allocate_from w o).0 ≡ (allocate_from v o).0
  allocate_from-same v w none h = refl
  allocate_from-same v w (some ip) h = elim (Bool-cases (ltb v.pool_end_v6 ip)) [
    | inl t ↦ rw (h, t) refl
    | inr t ↦ rw (h, t) refl
  ]

  -- The address configured for the client, the rest of the plaintext, and the lease behind a push
  -- request.
  abbrev pub wanted : Locked Conn → Option IpAddr
  wanted l = assigned_by (config_of l.server.cfg l.sess.client_cn)

  abbrev pub drained : ℕ → Locked Conn → Locked Conn
  drained n l = record l { sess = drain_plaintext n l.sess }

  abbrev pub leased : ℕ → ℕ → Locked Conn → Locked Conn
  leased addr ip l = note_v4 addr ip (record l { server = (choose_ip (wanted l) l.server).1 })

module _ {Conn : Type 0} (env : Env Conn) where
  -- Writes to the TLS connection succeed.
  abbrev pub Writes : Type 0
  Writes = (c : Conn) (bytes : List ℕ) → (env.rustls.write_all c bytes).0 ≡ ok tt

  -- The session behind the key-method-2 message.
  abbrev pub keyed : ClientKeyMethod2 → ℕ → Locked Conn → Locked Conn
  keyed km n l =
      let reply = key_method_reply l.server.cfg l.sess.server_random1 l.sess.server_random2 in
      let tls : TlsSession Conn = record {
        conn = (env.rustls.write_all l.sess.tls.conn reply).1;
        plaintext_in = drop n (plaintext l);
      } in
      let sess = record l.sess {
        tls = tls;
        client_pre_master = some km.pre_master;
        client_random1 = some km.random1;
        client_random2 = some km.random2;
        client_options = some km.options;
        client_peer_info = some km.peer_info;
        slot0 = some (agreed_slot env.crypto km l.sess);
        active_slot_idx = 0;
        state = push_pending;
      } in
      record l { sess = sess }

  abbrev pub push_reply : ℕ → Option ℕ → Locked Conn → List ℕ
  push_reply ip ip6 l =
      build_push_reply env.show_v6 l.server.cfg ip ip6 l.sess.peer_id
        (routes_by (config_of l.server.cfg l.sess.client_cn))

module _ {Conn : Type 0} (env : Env Conn) (addr : ℕ) where
  -- A turn of the loop that goes on, and one that ends it.
  pub plane_loop-on :
      (fuel : ℕ) (l m : Locked Conn)
      → plane_step env addr l ≡ (ok true, m)
      → plane_loop env addr (suc fuel) l ≡ plane_loop env addr fuel m
  unfolding plane_loop
  plane_loop-on fuel l m h = rw h refl

  pub plane_loop-off :
      (fuel : ℕ) (l m : Locked Conn)
      → plane_step env addr l ≡ (ok false, m)
      → plane_loop env addr (suc fuel) l ≡ (ok tt, m)
  unfolding plane_loop
  plane_loop-off fuel l m h = rw h refl

  pub handle_key_method-keyed :
      (km : ClientKeyMethod2) (n : ℕ) (l : Locked Conn)
      → Writes env
      → active_slot l.sess ≡ none
      → handle_key_method env addr km n l ≡ (ok true, keyed env km n l)
  unfolding handle_key_method install_prf_slot send_plaintext
  handle_key_method-keyed km n l writes empty =
      let reply : List ℕ =
        key_method_reply l.server.cfg l.sess.server_random1 l.sess.server_random2 in
      rw (empty, writes l.sess.tls.conn reply) refl

  pub key_method_turn :
      (km : ClientKeyMethod2) (rest : List ℕ) (l : Locked Conn)
      → Writes env
      → IsMessage env.crypto km
      → l.sess.state ≡ key_exchange
      → active_slot l.sess ≡ none
      → plaintext l ≡ client_message km rest
      → plane_step env addr l ≡ (ok true, keyed env km (message_size km) l)
  unfolding plane_step
  key_method_turn km rest l writes message state empty text =
      let parsed : try_parse env.crypto (plaintext l) ≡ ok (ready km (message_size km)) =
        ap (try_parse env.crypto) text ∙ try_parse-client_message env.crypto km rest message in
      ap (λ st. plane_turn env addr st (plaintext l) l) state
      ∙ ap (λ x. continue_with {S = Locked Conn} (x, l) (on_key_method env addr)) parsed
      ∙ handle_key_method-keyed km (message_size km) l writes empty

  abbrev pub answered : ℕ → Option ℕ → Locked Conn → Locked Conn
  answered ip ip6 l =
      let l4 =
        note_v6 addr ip6
          (record (leased addr ip l) { server = (allocate_ip_v6 (leased addr ip l).server).1 }) in
      let tls : TlsSession Conn = record l4.sess.tls {
        conn = (env.rustls.write_all l4.sess.tls.conn (push_reply env ip ip6 l)).1;
      } in
      let sess = record l4.sess { tls = tls; state = established } in record l4 { sess = sess }

  pub answer_push_request-answered :
      (ip : ℕ) (ip6 : Option ℕ) (l : Locked Conn)
      → Writes env
      → (choose_ip (wanted l) l.server).0 ≡ ok ip
      → (allocate_ip_v6 (leased addr ip l).server).0 ≡ ok ip6
      → answer_push_request env addr l ≡ (ok tt, answered ip ip6 l)
  unfolding answer_push_request send_plaintext
  answer_push_request-answered ip none l writes got got6 =
      rw (got, got6, writes l.sess.tls.conn (push_reply env ip none l)) refl
  answer_push_request-answered ip (some a) l writes got got6 =
      rw (got, got6, writes l.sess.tls.conn (push_reply env ip (some a) l)) refl

  pub handle_message-answered :
      (ip : ℕ) (ip6 : Option ℕ) (l : Locked Conn)
      → Writes env
      → (choose_ip (wanted l) l.server).0 ≡ ok ip
      → (allocate_ip_v6 (leased addr ip l).server).0 ≡ ok ip6
      → handle_message env addr push_request 13 l ≡ (ok true, answered ip ip6 (drained 13 l))
  unfolding handle_message
  handle_message-answered ip ip6 l writes got got6 =
      rw (answer_push_request-answered ip ip6 (drained 13 l) writes got got6) refl

  pub push_request_turn :
      (ip : ℕ) (ip6 : Option ℕ) (l : Locked Conn)
      → Writes env
      → env.crypto.from_utf8_lossy push_request ≡ push_request
      → l.sess.state ≡ push_pending
      → plaintext l ≡ push_request ++ 0 ∷ []
      → (choose_ip (wanted l) l.server).0 ≡ ok ip
      → (allocate_ip_v6 (leased addr ip l).server).0 ≡ ok ip6
      → plane_step env addr l ≡ (ok true, answered ip ip6 (drained 13 l))
  unfolding plane_step try_pop_ascii pop_before position_nul
  push_request_turn ip ip6 l writes ascii state text got got6 =
      let popped : try_pop_ascii env.crypto (plaintext l) ≡ ready push_request 13 =
        ap (try_pop_ascii env.crypto) text ∙ ap (λ m. ready m 13) ascii in
      ap (λ st. plane_turn env addr st (plaintext l) l) state
      ∙ ap (λ x. on_message env addr x l) popped
      ∙ handle_message-answered ip ip6 l writes got got6
