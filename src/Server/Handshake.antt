-- ===== src/Server/Handshake.antt =====
-- src/server.rs: the loop of `drive_control_plane` and its fuel.
use just_another_vpn_server.Prelude.{
  ℕ, zero, suc, ◌+◌, ◌-◌, ◌≤◌, ◌<◌, ◌≡◌, refl, sym, ap, ◌∙◌, Bool, true, false, List, [], Option,
  none, some, arith, length, drop, take, if◌then◌else◌, list_beq, ◌||◌, Result, ok, err, or_fail,
  length-drop, Bool-cases, inl, inr, ok-injective, >>=-eq-ok,
}
use just_another_vpn_server.Prelude.Steps.{
  continue_with, when, done, continue-keeps, continue-given,
}
use just_another_vpn_server.Primitives.{Primitives}
use just_another_vpn_server.ControlChannel.{
  ClientKeyMethod2, Pop, ready, need_more, try_parse, try_pop_ascii, position_nul, pop_before,
}
use just_another_vpn_server.ControlChannel.Stream.{try_parse-append, position_nul_bound}
use just_another_vpn_server.Session.{
  Session, KeySlot, State, waiting_hard_reset, handshaking, key_exchange, push_pending, established,
  closed,
}
use just_another_vpn_server.Session.Slots.{
  active_slot, install_prf_slot, install_slot, place_slot, set_slot,
}
use just_another_vpn_server.Server.{Env, Locked}
use just_another_vpn_server.Server.Tls.{send_plaintext}
use just_another_vpn_server.Server.Wire.{on_server, on_tls}
use just_another_vpn_server.Server.Pool.{allocate_ip_v6}
use just_another_vpn_server.Server.Push.{build_push_reply}
use just_another_vpn_server.Server.Plane.{
  plane_step, plane_turn, plane_loop, drive_control_plane, on_key_method, on_message,
  on_late_message, handle_key_method, handle_message, handle_late_message, answer_push_request,
  choose_ip, note_v4, note_v6, key_method_reply, drain_plaintext, config_of, routes_by,
  push_request, exit_text, cc_exit,
}

module _ {Conn : Type 0} where
  -- The plaintext of the main TLS connection.
  abbrev pub plaintext : Locked Conn → List ℕ
  plaintext l = l.sess.tls.plaintext_in

  abbrev Has : List ℕ → Locked Conn → Type 0
  Has p l = plaintext l ≡ p

  note_v6-plaintext :
      (addr : ℕ) (ip6 : Option ℕ) (l : Locked Conn) → plaintext (note_v6 addr ip6 l) ≡ plaintext l
  note_v6-plaintext addr none l = refl
  note_v6-plaintext addr (some ip6) l = refl

  set_slot-tls : (s : Session Conn) (i : ℕ) (o : Option KeySlot) → (set_slot s i o).tls ≡ s.tls
  set_slot-tls s zero o = refl
  set_slot-tls s (suc i) o = refl

  place_slot-tls :
      (s : Session Conn) (slot : KeySlot) (o : Option KeySlot) → (place_slot s slot o).tls ≡ s.tls
  unfolding install_slot
  place_slot-tls s slot none = refl
  place_slot-tls s slot (some a) = set_slot-tls s (1 - s.active_slot_idx) (some slot)

  install_prf_slot-tls :
      (lib : Primitives) (s s' : Session Conn) (k : ℕ)
      → install_prf_slot lib s k ≡ ok s'
      → s'.tls ≡ s.tls
  unfolding install_prf_slot
  install_prf_slot-tls lib s s' k h =
      let (pre, e0, h0) = >>=-eq-ok (or_fail s.client_pre_master _) _ h in
      let (r1, e1, h1) = >>=-eq-ok (or_fail s.client_random1 _) _ h0 in
      let (r2, e2, h2) = >>=-eq-ok (or_fail s.client_random2 _) _ h1 in
      ap (λ t. t.tls) (sym (ok-injective h2)) ∙ place_slot-tls s _ (active_slot s)

module _ {Conn : Type 0} (env : Env Conn) (addr : ℕ) where
  answer_push_request-plaintext :
      (l : Locked Conn) → plaintext (answer_push_request env addr l).1 ≡ plaintext l
  unfolding answer_push_request send_plaintext
  answer_push_request-plaintext l =
      let p : List ℕ = plaintext l in
      continue-keeps (Has p) (on_server (choose_ip _) l) _ refl λ ip l2 h2.
        continue-keeps (Has p) (on_server allocate_ip_v6 (note_v4 addr ip l2)) _ h2 λ ip6 l3 h3.
          let reply : List ℕ =
            build_push_reply env.show_v6 l.server.cfg ip ip6 l.sess.peer_id
              (routes_by (config_of l.server.cfg l.sess.client_cn)) in
          continue-keeps {B = Unit {0}} (Has p)
            (on_tls (send_plaintext env.rustls reply) (note_v6 addr ip6 l3)) _
            (note_v6-plaintext addr ip6 l3 ∙ h3) λ u l4 h4. h4

  handle_message-plaintext :
      (msg : List ℕ) (n : ℕ) (l : Locked Conn)
      → plaintext (handle_message env addr msg n l).1 ≡ drop n (plaintext l)
  unfolding handle_message
  handle_message-plaintext msg n l =
      let l1 : Locked Conn = record l { sess = drain_plaintext n l.sess } in
      continue-keeps (Has (drop n (plaintext l)))
        (when (list_beq msg push_request) (answer_push_request env addr) l1) _
        (elim (Bool-cases (list_beq msg push_request)) [
          | inl t ↦ rw t (answer_push_request-plaintext l1)
          | inr t ↦ rw t refl
        ])
        λ u l2 h2. h2

  handle_key_method-plaintext :
      (km : ClientKeyMethod2) (n : ℕ) (l : Locked Conn)
      → plaintext (handle_key_method env addr km n l).1 ≡ drop n (plaintext l)
  unfolding handle_key_method send_plaintext
  handle_key_method-plaintext km n l =
      let sess : Session Conn = record (drain_plaintext n l.sess) {
        client_pre_master = some km.pre_master;
        client_random1 = some km.random1;
        client_random2 = some km.random2;
        client_options = some km.options;
        client_peer_info = some km.peer_info;
      } in
      let l2 : Locked Conn = record l { sess = sess } in
      continue-given (Has (drop n (plaintext l))) (install_prf_slot env.crypto sess 0) l2 _ refl
        λ s h.
          let reply : List ℕ = key_method_reply l.server.cfg s.server_random1 s.server_random2 in
          continue-keeps {B = Bool} (Has (drop n (plaintext l)))
            (on_tls (send_plaintext env.rustls reply) (record l2 { sess = s })) _
            (ap (λ t. t.plaintext_in) (install_prf_slot-tls env.crypto sess s 0 h)) λ u l3 h3. h3

  handle_late_message-plaintext :
      (msg : List ℕ) (n : ℕ) (l : Locked Conn)
      → plaintext (handle_late_message env addr msg n l).1 ≡ drop n (plaintext l)
  unfolding handle_late_message
  handle_late_message-plaintext msg n l =
      elim (Bool-cases (list_beq msg exit_text || list_beq (take 7 msg) cc_exit)) [
        | inl t ↦ rw t refl
        | inr t ↦ rw t refl
      ]

  -- A turn that goes on leaves less plaintext.
  abbrev Shrinks : Locked Conn → Result Bool × Locked Conn → Type 0
  Shrinks l r = r.0 ≡ ok true → length (plaintext r.1) < length (plaintext l)

  dropped :
      (l : Locked Conn) (n : ℕ) (r : Result Bool × Locked Conn)
      → plaintext r.1 ≡ drop n (plaintext l)
      → n ≤ length (plaintext l)
      → 0 < n
      → Shrinks l r
  dropped l n r e fits positive h = omega (arith, ap length e, length-drop n (plaintext l))

  key_method-Shrinks :
      (x : Result (Pop ClientKeyMethod2)) (l : Locked Conn)
      → ((km : ClientKeyMethod2) (n : ℕ)
          → x ≡ ok (ready km n)
          → (n ≤ length (plaintext l)) × (0 < n))
      → Shrinks l (continue_with (x, l) (on_key_method env addr))
  key_method-Shrinks (err e) l bound h = cc
  key_method-Shrinks (ok need_more) l bound h = let no : false ≡ true = ok-injective h in cc
  key_method-Shrinks (ok (ready km n)) l bound h =
      let (fits, positive) = bound km n refl in
      dropped l n (handle_key_method env addr km n l) (handle_key_method-plaintext km n l) fits
        positive h

  message-Shrinks :
      (o : Option ℕ) (l : Locked Conn)
      → ((i : ℕ) → o ≡ some i → i < length (plaintext l))
      → Shrinks l (on_message env addr (pop_before env.crypto (plaintext l) o) l)
        × Shrinks l (on_late_message env addr (pop_before env.crypto (plaintext l) o) l)
  unfolding pop_before
  message-Shrinks none l bound = (
    λ h. let no : false ≡ true = ok-injective h in cc,
    λ h. let no : false ≡ true = ok-injective h in cc,
  )
  message-Shrinks (some i) l bound =
      let fits : i < length (plaintext l) = bound i refl in
      let msg : List ℕ = env.crypto.from_utf8_lossy (take i (plaintext l)) in
      (
        dropped l (i + 1) (handle_message env addr msg (i + 1) l)
            (handle_message-plaintext msg (i + 1) l) (omega arith) (omega arith),
        dropped l (i + 1) (handle_late_message env addr msg (i + 1) l)
            (handle_late_message-plaintext msg (i + 1) l) (omega arith) (omega arith),
      )

  no_turn : (l : Locked Conn) → Shrinks l (ok false, l)
  no_turn l h = let no : false ≡ true = ok-injective h in cc

  turn-Shrinks : (st : State) (l : Locked Conn) → Shrinks l (plane_turn env addr st (plaintext l) l)
  unfolding try_pop_ascii
  turn-Shrinks key_exchange l = key_method-Shrinks (try_parse env.crypto (plaintext l)) l λ km n e.
      let (again, fits, some_bytes) = try_parse-append env.crypto (plaintext l) [] km n e in
      (fits, omega arith)
  turn-Shrinks push_pending l =
      (message-Shrinks (position_nul (plaintext l)) l (position_nul_bound (plaintext l))).0
  turn-Shrinks established l =
      (message-Shrinks (position_nul (plaintext l)) l (position_nul_bound (plaintext l))).1
  turn-Shrinks waiting_hard_reset l = no_turn l
  turn-Shrinks handshaking l = no_turn l
  turn-Shrinks closed l = no_turn l

  abbrev loop_from : ℕ → Result Bool × Locked Conn → Result (Unit {0}) × Locked Conn
  loop_from fuel r = continue_with r λ again. if again then plane_loop env addr fuel else done

  same_from :
      (x : Result Bool) (l1 : Locked Conn) (f g : ℕ)
      → (x ≡ ok true → plane_loop env addr f l1 ≡ plane_loop env addr g l1)
      → loop_from f (x, l1) ≡ loop_from g (x, l1)
  same_from (err e) l1 f g h = refl
  same_from (ok true) l1 f g h = h refl
  same_from (ok false) l1 f g h = refl

  enough :
      (f g : ℕ) (l : Locked Conn)
      → length (plaintext l) < f
      → length (plaintext l) < g
      → plane_loop env addr f l ≡ plane_loop env addr g l
  unfolding plane_loop plane_step
  enough zero g l hf hg = absurd (omega arith)
  enough (suc f) zero l hf hg = absurd (omega arith)
  enough (suc f) (suc g) l hf hg =
      let r : Result Bool × Locked Conn = plane_turn env addr l.sess.state (plaintext l) l in
      same_from r.0 r.1 f g λ go.
        let less : length (plaintext r.1) < length (plaintext l) = turn-Shrinks l.sess.state l go in
        enough f g r.1 (omega arith) (omega arith)

  -- The fuel of `drive_control_plane`, one more than the bytes of plaintext, is enough: with any
  -- larger amount the loop does the same and ends in the same state.
  pub drive_control_plane-plane_loop :
      (fuel : ℕ) (l : Locked Conn)
      → length (plaintext l) < fuel
      → plane_loop env addr fuel l ≡ drive_control_plane env addr l
  unfolding drive_control_plane
  drive_control_plane-plane_loop fuel l h =
      enough fuel (suc (length (plaintext l))) l h (omega arith)
