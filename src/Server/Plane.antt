-- ===== src/Server/Plane.antt =====
-- src/server.rs: `drive_control_plane`, the messages inside the TLS stream after the handshake. One
-- turn of its loop is `plane_step`, which tells whether the loop goes on.
use just_another_vpn_server.Prelude.{
  ℕ, zero, suc, ◌+◌, Bool, true, false, List, [], ◌∷◌, Option, none, some, min, ◌^◌, ◌-◌, take,
  drop, length, ◌||◌, if◌then◌else◌, list_beq, err, Error,
}
use just_another_vpn_server.Prelude.Steps.{
  Step, ◌>>=◌, ◌>>◌, pure, done, get, modify, lift, when, bail_when,
}
use just_another_vpn_server.Prelude.Maps.{insert, has_key}
use just_another_vpn_server.Config.{ServerConfig, ClientConfig, IpAddr, v4, v6, client_config}
use just_another_vpn_server.ControlChannel
use just_another_vpn_server.ControlChannel.{
  ClientKeyMethod2, ServerKeyMethod2, Pop, ready, need_more, try_parse, try_pop_ascii,
}
use just_another_vpn_server.ControlChannel.Announce.{build_options_string, build_peer_info}
use just_another_vpn_server.Session.{
  Session, State, waiting_hard_reset, handshaking, key_exchange, push_pending, established, closed,
}
use just_another_vpn_server.Session.Slots.{install_prf_slot}
use just_another_vpn_server.Server.{Env, VpnServer, Locked}
use just_another_vpn_server.Server.Tls.{send_plaintext}
use just_another_vpn_server.Server.Wire.{set_session, on_server, on_tls}
use just_another_vpn_server.Server.Pool.{allocate_ip, allocate_ip_v6}
use just_another_vpn_server.Server.Push.{build_push_reply}
use Error.{static_ip_in_use, v6_unsupported}

-- "PUSH_REQUEST"
abbrev pub push_request : List ℕ
push_request = 80 ∷ 85 ∷ 83 ∷ 72 ∷ 95 ∷ 82 ∷ 69 ∷ 81 ∷ 85 ∷ 69 ∷ 83 ∷ 84 ∷ []

-- "EXIT"
abbrev pub exit_text : List ℕ
exit_text = 69 ∷ 88 ∷ 73 ∷ 84 ∷ []

-- "CC_EXIT"
abbrev pub cc_exit : List ℕ
cc_exit = 67 ∷ 67 ∷ 95 ∷ 69 ∷ 88 ∷ 73 ∷ 84 ∷ []

-- `tun_mtu.saturating_add(42)` on a `u16`.
abbrev pub link_mtu : ServerConfig → ℕ
link_mtu cfg = min (cfg.tun_mtu + 42) (2 ^ 16 - 1)

-- The key-method-2 reply with the random values of the server.
unfoldable pub key_method_reply : ServerConfig → List ℕ → List ℕ → List ℕ
key_method_reply cfg random1 random2 = ControlChannel.encode (record {
  random1 = random1;
  random2 = random2;
  options = build_options_string (link_mtu cfg) cfg.tun_mtu;
  username = [];
  password = [];
  peer_info = build_peer_info;
})

abbrev pub config_of : ServerConfig → Option (List ℕ) → Option ClientConfig
config_of cfg none = none
config_of cfg (some cn) = client_config cfg.client_configs cn

abbrev pub assigned_by : Option ClientConfig → Option IpAddr
assigned_by none = none
assigned_by (some c) = c.assign_ip

abbrev pub routes_by : Option ClientConfig → List (List ℕ)
routes_by none = []
routes_by (some c) = c.push_routes

module _ {Conn : Type 0} where
  -- `plaintext_in.drain(..n)`
  abbrev pub drain_plaintext : ℕ → Session Conn → Session Conn
  drain_plaintext n sess =
      let tls = record sess.tls { plaintext_in = drop n sess.tls.plaintext_in } in
      record sess { tls = tls }

  unfoldable pub choose_ip : Option IpAddr → Step (VpnServer Conn) ℕ
  choose_ip (some (v4 ip)) self =
      (bail_when (has_key self.routes ip) static_ip_in_use >> pure ip) self
  choose_ip (some (v6 ip)) self = (err v6_unsupported, self)
  choose_ip none self = allocate_ip self

  abbrev pub note_v6 : ℕ → Option ℕ → Locked Conn → Locked Conn
  note_v6 addr none l = l
  note_v6 addr (some ip6) l =
      let sess = record l.sess { assigned_ip_v6 = some ip6 } in
      let server = record l.server { routes_v6 = insert l.server.routes_v6 ip6 addr } in
      record l { sess = sess; server = server }

  abbrev pub note_v4 : ℕ → ℕ → Locked Conn → Locked Conn
  note_v4 addr ip l =
      let sess = record l.sess { assigned_ip = some ip } in
      let server = record l.server { routes = insert l.server.routes ip addr } in
      record l { sess = sess; server = server }

module _ {Conn : Type 0} (env : Env Conn) (addr : ℕ) where
  unfoldable pub handle_key_method : ClientKeyMethod2 → ℕ → Step (Locked Conn) Bool
  handle_key_method km n = do
    set_session (drain_plaintext n)
    set_session (λ s. record s {
      client_pre_master = some km.pre_master;
      client_random1 = some km.random1;
      client_random2 = some km.random2;
      client_options = some km.options;
      client_peer_info = some km.peer_info;
    })
    l ← get
    sess ← lift (install_prf_slot env.crypto l.sess 0)
    set_session (λ s. sess)
    on_tls (
        send_plaintext env.rustls
          (key_method_reply l.server.cfg sess.server_random1 sess.server_random2))
    set_session (λ s. record s { state = push_pending })
    pure true

  unfoldable pub answer_push_request : Step (Locked Conn) (Unit {0})
  answer_push_request = do
    l ← get
    let cc = config_of l.server.cfg l.sess.client_cn
    ip ← on_server (choose_ip (assigned_by cc))
    modify (note_v4 addr ip)
    ip6 ← on_server allocate_ip_v6
    modify (note_v6 addr ip6)
    on_tls (
        send_plaintext env.rustls
          (build_push_reply env.show_v6 l.server.cfg ip ip6 l.sess.peer_id (routes_by cc)))
    set_session (λ s. record s { state = established })

  unfoldable pub handle_message : List ℕ → ℕ → Step (Locked Conn) Bool
  handle_message msg n =
      set_session (drain_plaintext n)
      >> when (list_beq msg push_request) answer_push_request
      >> pure true

  unfoldable pub handle_late_message : List ℕ → ℕ → Step (Locked Conn) Bool
  handle_late_message msg n =
      set_session (drain_plaintext n)
      >> (if list_beq msg exit_text || list_beq (take 7 msg) cc_exit
          then (set_session (λ s. record s { state = closed }) >> pure false)
          else pure true)

  abbrev pub on_key_method : Pop ClientKeyMethod2 → Step (Locked Conn) Bool
  on_key_method need_more = pure false
  on_key_method (ready km n) = handle_key_method km n

  abbrev pub on_message : Pop (List ℕ) → Step (Locked Conn) Bool
  on_message need_more = pure false
  on_message (ready msg n) = handle_message msg n

  abbrev pub on_late_message : Pop (List ℕ) → Step (Locked Conn) Bool
  on_late_message need_more = pure false
  on_late_message (ready msg n) = handle_late_message msg n

  abbrev pub plane_turn : State → List ℕ → Step (Locked Conn) Bool
  plane_turn key_exchange plaintext = lift (try_parse env.crypto plaintext) >>= on_key_method
  plane_turn push_pending plaintext = on_message (try_pop_ascii env.crypto plaintext)
  plane_turn established plaintext = on_late_message (try_pop_ascii env.crypto plaintext)
  plane_turn waiting_hard_reset plaintext = pure false
  plane_turn handshaking plaintext = pure false
  plane_turn closed plaintext = pure false

  unfoldable pub plane_step : Step (Locked Conn) Bool
  plane_step l = plane_turn l.sess.state l.sess.tls.plaintext_in l

  unfoldable pub plane_loop : ℕ → Step (Locked Conn) (Unit {0})
  plane_loop zero = done
  plane_loop (suc fuel) =
      let rest = plane_loop fuel in plane_step >>= λ again. if again then rest else done

  -- Each turn that goes on takes at least a byte from the plaintext.
  unfoldable pub drive_control_plane : Step (Locked Conn) (Unit {0})
  drive_control_plane l = plane_loop (suc (length l.sess.tls.plaintext_in)) l
