-- ===== src/Server/Invariant/Handlers.antt =====
-- src/server.rs: the handlers of control packets, on sessions that are keyed.
use just_another_vpn_server.Prelude.{
  ℕ, zero, suc, ◌≡◌, refl, sym, subst, Bool, true, false, ◌||◌, Option, none, some, Bool-cases, inl,
  inr, List, length, ltb, list_beq, take,
}
use just_another_vpn_server.Prelude.Steps.{when, done, continue-keeps, continue-given}
use just_another_vpn_server.Prelude.Maps.{has_key}
use just_another_vpn_server.Prelude.Keeps.{Keeps, bind-Keeps, if-Keeps, done-Keeps, stage}
use just_another_vpn_server.Config.{IpAddr, v4, v6}
use just_another_vpn_server.ControlChannel.{
  ClientKeyMethod2, Pop, ready, need_more, try_parse, try_pop_ascii,
}
use just_another_vpn_server.Session.{
  Session, State, waiting_hard_reset, handshaking, key_exchange, push_pending, established, closed,
}
use just_another_vpn_server.Session.Slots.{active_slot, install_prf_slot}
use just_another_vpn_server.Server.{Env, VpnServer, Locked}
use just_another_vpn_server.Server.Tls.{send_plaintext}
use just_another_vpn_server.Server.Pool.{allocate_ip, allocate_ip_v6, allocate_from}
use just_another_vpn_server.Server.Push.{build_push_reply}
use just_another_vpn_server.Server.Wire.{on_server, on_tls}
use just_another_vpn_server.Server.Plane.{
  drive_control_plane, plane_loop, plane_step, plane_turn, handle_key_method, handle_message,
  handle_late_message, answer_push_request, choose_ip, note_v4, note_v6, drain_plaintext,
  key_method_reply, config_of, routes_by, push_request, exit_text, cc_exit, on_key_method,
  on_message, on_late_message,
}
use just_another_vpn_server.Server.Invariant.{HasValue, KeyedAt, AllKeyed, LockedKeyed}
use just_another_vpn_server.Server.Invariant.Sessions.{install_prf_slot-IsKeyed}
use just_another_vpn_server.Server.Invariant.Sends.{ServerKeyed}

module _ {Conn : Type 0} where
  -- The pools leave the sessions as they are.
  allocate_ip-Keeps : Keeps (ServerKeyed {Conn = Conn}) allocate_ip
  unfolding allocate_ip
  allocate_ip-Keeps = record {
    kept_at = λ v h. elim (Bool-cases (ltb v.pool_end v.next_pool_ip)) [
      | inl t ↦ rw t h
      | inr t ↦ rw t h
    ];
  }

  allocate_from-keyed :
      (v : VpnServer Conn) (next : Option ℕ) → ServerKeyed v → ServerKeyed (allocate_from v next).1
  allocate_from-keyed v none h = h
  allocate_from-keyed v (some ip) h = elim (Bool-cases (ltb v.pool_end_v6 ip)) [
    | inl t ↦ rw t h
    | inr t ↦ rw t h
  ]

  allocate_ip_v6-Keeps : Keeps (ServerKeyed {Conn = Conn}) allocate_ip_v6
  unfolding allocate_ip_v6
  allocate_ip_v6-Keeps = record { kept_at = λ v h. allocate_from-keyed v v.next_pool_ip_v6 h }

  choose_ip-Keeps : (ip : Option IpAddr) → Keeps (ServerKeyed {Conn = Conn}) (choose_ip ip)
  unfolding choose_ip
  choose_ip-Keeps none = record { kept_at = allocate_ip-Keeps.kept_at }
  choose_ip-Keeps (some (v6 ip)) = record { kept_at = λ v h. h }
  choose_ip-Keeps (some (v4 ip)) = record {
    kept_at = λ v h. elim (Bool-cases (has_key v.routes ip)) [ inl t ↦ rw t h | inr t ↦ rw t h ];
  }

  -- A locked session that waits for the push request, or has an address already.
  abbrev HasKey : Locked Conn → Type 0
  HasKey l =
      HasValue (active_slot l.sess) × (l.sess.state ≡ push_pending) × AllKeyed l.server.sessions

  abbrev HasAddress : Locked Conn → Type 0
  HasAddress l = HasValue l.sess.assigned_ip × HasKey l

  HasKey-LockedKeyed : (l : Locked Conn) → HasKey l → LockedKeyed l
  HasKey-LockedKeyed l h =
      let (key, pending, all) = h in
      (
        subst (λ state. KeyedAt state (active_slot l.sess) l.sess.assigned_ip) (sym pending) key,
        all,
      )

  HasAddress-LockedKeyed : (l : Locked Conn) → HasAddress l → LockedKeyed l
  HasAddress-LockedKeyed l h = HasKey-LockedKeyed l h.1

  note_v6-HasAddress :
      (addr : ℕ) (ip6 : Option ℕ) (l : Locked Conn) → HasAddress l → HasAddress (note_v6 addr ip6 l)
  note_v6-HasAddress addr none l h = h
  note_v6-HasAddress addr (some ip6) l h = h

module _ {Conn : Type 0} (env : Env Conn) (addr : ℕ) where
  -- A session that waits for the push request is established with an address, or stays as it is.
  answer_push_request-keyed :
      (l : Locked Conn) → HasKey l → LockedKeyed (answer_push_request env addr l).1
  unfolding answer_push_request
  answer_push_request-keyed l (key, pending, all) =
      stage LockedKeyed HasKey (on_server (choose_ip _) l) _ HasKey-LockedKeyed
        (key, pending, (choose_ip-Keeps _).kept_at l.server all)
        λ ip l2 h2.
          stage LockedKeyed HasAddress (on_server allocate_ip_v6 (note_v4 addr ip l2)) _
            HasAddress-LockedKeyed
            (
              (ip, refl),
              (h2.0, h2.1, allocate_ip_v6-Keeps.kept_at (note_v4 addr ip l2).server h2.2),
            )
            λ ip6 l3 h3.
              stage {B = Unit {0}} LockedKeyed HasAddress
                (on_tls
                  (send_plaintext env.rustls (
                    build_push_reply env.show_v6 l.server.cfg ip ip6 l.sess.peer_id
                      (routes_by (config_of l.server.cfg l.sess.client_cn))))
                  (note_v6 addr ip6 l3))
                _ HasAddress-LockedKeyed (note_v6-HasAddress addr ip6 l3 h3)
                λ u l4 h4. ((h4.1.0, h4.0), h4.1.2)

  abbrev HasActive : Locked Conn → Type 0
  HasActive l = HasValue (active_slot l.sess) × LockedKeyed l

  HasActive-LockedKeyed : (l : Locked Conn) → HasActive l → LockedKeyed l
  HasActive-LockedKeyed l h = h.1

  -- The keys are installed before the session waits for the push request.
  handle_key_method-keyed :
      (km : ClientKeyMethod2) (n : ℕ) (l : Locked Conn)
      → LockedKeyed l
      → LockedKeyed (handle_key_method env addr km n l).1
  unfolding handle_key_method
  handle_key_method-keyed km n l h =
      let sess : Session Conn = record (drain_plaintext n l.sess) {
        client_pre_master = some km.pre_master;
        client_random1 = some km.random1;
        client_random2 = some km.random2;
        client_options = some km.options;
        client_peer_info = some km.peer_info;
      } in
      continue-given LockedKeyed (install_prf_slot env.crypto sess 0) (record l { sess = sess }) _ h
        λ s e.
          let (key, keyed) = install_prf_slot-IsKeyed env.crypto sess 0 s e h.0 in
          stage LockedKeyed HasActive
            (on_tls
              (send_plaintext env.rustls
                (key_method_reply l.server.cfg s.server_random1 s.server_random2))
              (record l { sess = s }))
            _ HasActive-LockedKeyed (key, (keyed, h.1)) λ u l2 h2. (h2.0, h2.1.1)

  handle_message-keyed :
      (msg : List ℕ) (n : ℕ) (l : Locked Conn)
      → l.sess.state ≡ push_pending
      → LockedKeyed l
      → LockedKeyed (handle_message env addr msg n l).1
  unfolding handle_message
  handle_message-keyed msg n l pending h =
      let l1 : Locked Conn = record l { sess = drain_plaintext n l.sess } in
      let key : HasValue (active_slot l.sess) =
        subst (λ state. KeyedAt state (active_slot l.sess) l.sess.assigned_ip) pending h.0 in
      continue-keeps LockedKeyed
        (when (list_beq msg push_request) (answer_push_request env addr) l1) _
        (answered (list_beq msg push_request) l1 (key, pending, h.1) h) λ u l2 h2. h2
    where
      answered :
          (test : Bool) (l1 : Locked Conn)
          → HasKey l1
          → LockedKeyed l1
          → LockedKeyed (when test (answer_push_request env addr) l1).1
      answered true l1 key h = answer_push_request-keyed l1 key
      answered false l1 key h = h

  handle_late_message-keyed :
      (msg : List ℕ) (n : ℕ) (l : Locked Conn)
      → l.sess.state ≡ established
      → LockedKeyed l
      → LockedKeyed (handle_late_message env addr msg n l).1
  unfolding handle_late_message
  handle_late_message-keyed msg n l e h =
      let both : HasValue (active_slot l.sess) × HasValue l.sess.assigned_ip =
        subst (λ state. KeyedAt state (active_slot l.sess) l.sess.assigned_ip) e h.0 in
      elim (Bool-cases (list_beq msg exit_text || list_beq (take 7 msg) cc_exit)) [
        | inl t ↦ rw t (both, h.1)
        | inr t ↦ rw t h
      ]

  plane_turn-keyed :
      (state : State) (plaintext : List ℕ) (l : Locked Conn)
      → l.sess.state ≡ state
      → LockedKeyed l
      → LockedKeyed (plane_turn env addr state plaintext l).1
  plane_turn-keyed waiting_hard_reset plaintext l e h = h
  plane_turn-keyed handshaking plaintext l e h = h
  plane_turn-keyed closed plaintext l e h = h
  plane_turn-keyed key_exchange plaintext l e h =
      continue-given LockedKeyed (try_parse env.crypto plaintext) l _ h λ parsed _. exchanged parsed
    where
      exchanged : (parsed : Pop ClientKeyMethod2) → LockedKeyed (on_key_method env addr parsed l).1
      exchanged need_more = h
      exchanged (ready km n) = handle_key_method-keyed km n l h
  plane_turn-keyed push_pending plaintext l e h = popped (try_pop_ascii env.crypto plaintext)
    where
      popped : (msg : Pop (List ℕ)) → LockedKeyed (on_message env addr msg l).1
      popped need_more = h
      popped (ready msg n) = handle_message-keyed msg n l e h
  plane_turn-keyed established plaintext l e h = popped (try_pop_ascii env.crypto plaintext)
    where
      popped : (msg : Pop (List ℕ)) → LockedKeyed (on_late_message env addr msg l).1
      popped need_more = h
      popped (ready msg n) = handle_late_message-keyed msg n l e h

  plane_loop-Keeps : (fuel : ℕ) → Keeps LockedKeyed (plane_loop env addr fuel)
  unfolding plane_loop plane_step
  plane_loop-Keeps zero = done-Keeps LockedKeyed
  plane_loop-Keeps (suc fuel) =
      bind-Keeps LockedKeyed (plane_step env addr) _
        (record { kept_at = λ l h. plane_turn-keyed l.sess.state l.sess.tls.plaintext_in l refl h })
        λ again.
          if-Keeps LockedKeyed again (plane_loop env addr fuel) done (plane_loop-Keeps fuel)
            (done-Keeps LockedKeyed)

  pub drive_control_plane-Keeps : Keeps LockedKeyed (drive_control_plane env addr)
  unfolding drive_control_plane
  drive_control_plane-Keeps = record {
    kept_at = λ l h. (plane_loop-Keeps (suc (length l.sess.tls.plaintext_in))).kept_at l h;
  }
