-- ===== src/Server/Invariant/Tasks.antt =====
-- src/server.rs: the data plane and the timers, on tables of sessions that are keyed.
use just_another_vpn_server.Prelude.{
  ℕ, [], ◌≡◌, refl, Bool, true, false, Option, none, some, Result, ok, err, if◌then◌else◌, List,
  ◌∷◌, take,
}
use just_another_vpn_server.Prelude.Steps.{Step, lift, continue-given}
use just_another_vpn_server.Prelude.Keeps.{Keeps, get-Keeps, bind-Keeps, then-Keeps, lift-Keeps}
use just_another_vpn_server.Prelude.Maps.{lookup, insert}
use just_another_vpn_server.Protocol.{parse_data, DataPacketV2, ping_payload}
use just_another_vpn_server.Session
use just_another_vpn_server.Session.{Session, KeySlot, Transport, control_base_rto}
use just_another_vpn_server.Session.Slots.{active_slot, slot_at, slot_by_key_id, build_data_packet}
use just_another_vpn_server.Session.Control.{stale_unacked, make_soft_reset_init}
use just_another_vpn_server.Server.{Env, VpnServer, Locked}
use just_another_vpn_server.Server.Tls
use just_another_vpn_server.Server.Wire.{send, wrap_with, on_tls, flush_outgoing}
use just_another_vpn_server.Server.Dispatch.{with_locked, is_established}
use just_another_vpn_server.Server.Traffic.{
  open_slot, open_at, decrypt, decrypt_and_forward, forwarded, work_with, work, run_worker,
  destination, forward_with, forward_at, forward_to, forward_tun_to_client,
}
use just_another_vpn_server.Server.Timers.{
  wrap_all, send_all, retransmit_at, retransmit, init_rekey, rekey_due, rekey_at, rekey_timer,
  ping_at, ping, restart_client, shutdown_at, shutdown_clients, restart,
}
use just_another_vpn_server.Server.Invariant.{IsKeyed, AllKeyed, LockedKeyed}
use just_another_vpn_server.Server.Invariant.Sessions.{set_slot-IsKeyed, build_data_packet-IsKeyed}
use just_another_vpn_server.Server.Invariant.Sends.{
  ServerKeyed, send-Keeps, wrap_with-IsKeyed, send_and_track-Keeps, flush_outgoing-Keeps,
  on_tls-Keeps,
}
use just_another_vpn_server.Server.Invariant.Tables.{insert-AllKeyed, with_locked-keyed}

module _ {Conn : Type 0} (env : Env Conn) where
  -- A packet that is opened changes a slot at most.
  open_at-IsKeyed :
      (aad : List ℕ) (dp : DataPacketV2) (idx : Option ℕ) (sess : Session Conn)
      → IsKeyed sess
      → IsKeyed (open_at env.crypto aad dp idx sess).1
  open_at-IsKeyed aad dp none sess h = h
  open_at-IsKeyed aad dp (some idx) sess h = opened (slot_at sess idx)
    where
      opened : (slot : Option KeySlot) → IsKeyed (open_slot env.crypto idx aad dp slot sess).1
      opened none = h
      opened (some slot) = set_slot-IsKeyed sess idx _ h

  decrypt-Keeps :
      (now : ℕ) (pkt : List ℕ)
      → Keeps (λ (s : Session Conn). IsKeyed s) (decrypt env.crypto now pkt)
  unfolding decrypt
  decrypt-Keeps now pkt =
      bind-Keeps (λ (s : Session Conn). IsKeyed s) (lift (parse_data pkt)) _
        (lift-Keeps _ (parse_data pkt))
        λ dp.
          bind-Keeps (λ (s : Session Conn). IsKeyed s)
            (λ s. open_at env.crypto (take 8 pkt) dp (slot_by_key_id s dp.key_id) s) _
            (record {
              kept_at = λ s h. open_at-IsKeyed (take 8 pkt) dp (slot_by_key_id s dp.key_id) s h;
            })
            λ plaintext. record { kept_at = λ s h. h }

  decrypt_and_forward-Keeps :
      (now : ℕ) (pkt : List ℕ)
      → Keeps (λ (s : Session Conn). IsKeyed s) (decrypt_and_forward env.crypto now pkt)
  unfolding decrypt_and_forward
  decrypt_and_forward-Keeps now pkt =
      bind-Keeps (λ (s : Session Conn). IsKeyed s) (decrypt env.crypto now pkt) _
        (decrypt-Keeps now pkt) λ plaintext. record { kept_at = λ s h. h }

  forwarded-keyed :
      (addr : ℕ) (r : Result (List (List ℕ)) × Session Conn) (v : VpnServer Conn)
      → IsKeyed r.1
      → ServerKeyed v
      → ServerKeyed (forwarded env addr r v)
  forwarded-keyed addr (ok out, sess) v keyed h = insert-AllKeyed v.sessions addr sess h keyed
  forwarded-keyed addr (err e, sess) v keyed h = insert-AllKeyed v.sessions addr sess h keyed

  pub run_worker-keyed : (v : VpnServer Conn) → ServerKeyed v → ServerKeyed (run_worker env v)
  unfolding run_worker
  run_worker-keyed v h = worked v.queued
    where
      found :
          (addr : ℕ) (pkt : List ℕ) (v1 : VpnServer Conn)
          → ServerKeyed v1
          → (sess : Option (Session Conn)) → lookup v1.sessions addr ≡ sess
          → ServerKeyed (work_with env addr pkt sess v1)
      found addr pkt v1 h1 none e = h1
      found addr pkt v1 h1 (some sess) e =
          forwarded-keyed addr (decrypt_and_forward env.crypto env.now pkt sess) v1
            ((decrypt_and_forward-Keeps env.now pkt).kept_at sess (h1 addr sess e)) h1

      worked : (queue : List (ℕ × List ℕ)) → ServerKeyed (work env v queue)
      worked [] = h
      worked (q ∷ rest) = found q.0 q.1 (record v { queued = rest }) h (lookup v.sessions q.0) refl

  forward_at-keyed :
      (addr : ℕ) (ip_pkt : List ℕ) (v : VpnServer Conn)
      → ServerKeyed v
      → (sess : Option (Session Conn)) → lookup v.sessions addr ≡ sess
      → ServerKeyed (forward_at env addr sess ip_pkt v).1
  unfolding forward_with
  forward_at-keyed addr ip_pkt v h none e = h
  forward_at-keyed addr ip_pkt v h (some sess) e = sealed (active_slot sess)
    where
      sealed : (slot : Option KeySlot) → ServerKeyed (forward_with env addr sess slot ip_pkt v).1
      sealed none = h
      sealed (some slot) =
          let r : Session Conn × Result (List ℕ) = build_data_packet env.crypto sess ip_pkt in
          let kept : AllKeyed (insert v.sessions addr r.0) =
            insert-AllKeyed v.sessions addr r.0 h
              (build_data_packet-IsKeyed env.crypto sess ip_pkt (h addr sess e)) in
          continue-given ServerKeyed r.1 (record v { sessions = insert v.sessions addr r.0 }) _ kept
            λ wire _. (send-Keeps env sess.transport wire).kept_at _ kept

  pub forward_tun_to_client-keyed :
      (ip_pkt : List ℕ) (v : VpnServer Conn)
      → ServerKeyed v
      → ServerKeyed (forward_tun_to_client env ip_pkt v).1
  unfolding forward_tun_to_client
  forward_tun_to_client-keyed ip_pkt v h = forwarded_to (destination env v ip_pkt)
    where
      forwarded_to : (addr : Option ℕ) → ServerKeyed (forward_to env addr ip_pkt v).1
      forwarded_to none = h
      forwarded_to (some addr) = forward_at-keyed addr ip_pkt v h (lookup v.sessions addr) refl

  -- Retransmission gives the session new envelope ids only.
  wrap_all-IsKeyed :
      (v : VpnServer Conn) (packets : List (List ℕ)) (sess : Session Conn)
      → IsKeyed sess
      → IsKeyed (wrap_all env v packets sess).1
  unfolding wrap_all
  wrap_all-IsKeyed v [] sess h = h
  wrap_all-IsKeyed v (inner ∷ more) sess h =
      wrap_all-IsKeyed v more (wrap_with env v.tls_crypt v.tls_auth inner sess).1
        (wrap_with-IsKeyed env v.tls_crypt v.tls_auth inner sess h)

  send_all-keyed :
      (to : Transport) (wires : List (List ℕ)) (v : VpnServer Conn)
      → ServerKeyed v
      → ServerKeyed (send_all env to wires v)
  unfolding send_all
  send_all-keyed to [] v h = h
  send_all-keyed to (wire ∷ more) v h =
      send_all-keyed to more (send env to wire v).1 ((send-Keeps env to wire).kept_at v h)

  pub retransmit-keyed :
      (addr : ℕ) (v : VpnServer Conn) → ServerKeyed v → ServerKeyed (retransmit env addr v)
  unfolding retransmit stale_unacked
  retransmit-keyed addr v h = found (lookup v.sessions addr) refl
    where
      found :
          (sess : Option (Session Conn))
          → lookup v.sessions addr ≡ sess
          → ServerKeyed (retransmit_at env addr sess v)
      found none e = h
      found (some sess) e =
          let r : Session Conn × List (List ℕ) = stale_unacked sess env.now control_base_rto in
          let w : List (List ℕ) × Session Conn = wrap_all env v r.1 r.0 in
          send_all-keyed sess.transport w.0 (record v { sessions = insert v.sessions addr w.1 })
            (insert-AllKeyed v.sessions addr w.1 h (wrap_all-IsKeyed v r.1 r.0 (h addr sess e)))

  init_rekey-Keeps : Keeps LockedKeyed (init_rekey env)
  unfolding init_rekey Session.start_rekey make_soft_reset_init
  init_rekey-Keeps = get-Keeps LockedKeyed _ λ l.
      bind-Keeps LockedKeyed (lift (Tls.new env.rustls)) _
        (lift-Keeps LockedKeyed (Tls.new env.rustls))
        λ tls. record { kept_at = λ l2 h. (send_and_track-Keeps env _).kept_at _ h }

  restart_client-Keeps : Keeps LockedKeyed (restart_client env)
  unfolding restart_client
  restart_client-Keeps =
      then-Keeps LockedKeyed (on_tls (Tls.send_plaintext env.rustls restart)) (flush_outgoing env)
        (on_tls-Keeps (Tls.send_plaintext env.rustls restart)) (flush_outgoing-Keeps env)

  -- A timer that may lock the session at an address.
  locked_if-keyed :
      (test : Bool) (addr : ℕ) (sess : Session Conn) (m : Step (Locked Conn) (Unit {0}))
      (v : VpnServer Conn)
      → Keeps LockedKeyed m
      → IsKeyed sess
      → ServerKeyed v
      → ServerKeyed (if test then (with_locked addr sess m v).1 else v)
  locked_if-keyed true addr sess m v hm keyed h = with_locked-keyed addr sess m v hm keyed h
  locked_if-keyed false addr sess m v hm keyed h = h

  pub rekey_timer-keyed :
      (reneg addr : ℕ) (v : VpnServer Conn)
      → ServerKeyed v
      → ServerKeyed (rekey_timer env reneg addr v)
  unfolding rekey_timer
  rekey_timer-keyed reneg addr v h = found (lookup v.sessions addr) refl
    where
      found :
          (sess : Option (Session Conn))
          → lookup v.sessions addr ≡ sess
          → ServerKeyed (rekey_at env reneg addr sess v)
      found none e = h
      found (some sess) e =
          locked_if-keyed (rekey_due env reneg sess) addr sess (init_rekey env) v init_rekey-Keeps
            (h addr sess e) h

  pub ping-keyed : (addr : ℕ) (v : VpnServer Conn) → ServerKeyed v → ServerKeyed (ping env addr v)
  unfolding ping
  ping-keyed addr v h = found (lookup v.sessions addr) refl
    where
      pinged :
          (test : Bool) (sess : Session Conn)
          → lookup v.sessions addr ≡ some sess
          → ServerKeyed (if test then (forward_at env addr (some sess) ping_payload v).1 else v)
      pinged true sess e = forward_at-keyed addr ping_payload v h (some sess) e
      pinged false sess e = h

      found :
          (sess : Option (Session Conn))
          → lookup v.sessions addr ≡ sess
          → ServerKeyed (ping_at env addr sess v)
      found none e = h
      found (some sess) e = pinged (is_established sess.state) sess e

  shutdown_at-keyed :
      (addr : ℕ) (v : VpnServer Conn)
      → ServerKeyed v
      → (sess : Option (Session Conn)) → lookup v.sessions addr ≡ sess
      → ServerKeyed (shutdown_at env addr sess v)
  shutdown_at-keyed addr v h none e = h
  shutdown_at-keyed addr v h (some sess) e =
      locked_if-keyed (is_established sess.state) addr sess (restart_client env) v
        restart_client-Keeps (h addr sess e) h

  pub shutdown_clients-keyed :
      (addrs : List ℕ) (v : VpnServer Conn)
      → ServerKeyed v
      → ServerKeyed (shutdown_clients env addrs v)
  unfolding shutdown_clients
  shutdown_clients-keyed [] v h = h
  shutdown_clients-keyed (addr ∷ more) v h =
      shutdown_clients-keyed more (shutdown_at env addr (lookup v.sessions addr) v)
        (shutdown_at-keyed addr v h (lookup v.sessions addr) refl)
