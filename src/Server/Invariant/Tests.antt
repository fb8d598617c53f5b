-- ===== src/Server/Invariant/Tests.antt =====
-- A server without sessions that gets a hard reset and then the whole TLS exchange in one packet, so
-- that the session is established.
use just_another_vpn_server.Prelude.{
  ℕ, ◌≡◌, refl, [], ◌∷◌, ◌++◌, List, Option, none, some, false, ok, length, replicate,
  if◌then◌else◌, ◌==◌,
}
use just_another_vpn_server.Prelude.Maps.{lookup}
use just_another_vpn_server.Prelude.Bytes.{to_be, from_be}
use just_another_vpn_server.Protocol.{
  parse, parse_body, parse_tail, get_acks, get_remote, get_packet_id, from_u8, to_u8, encode,
  put_acks, put_remote, put_packet_id,
}
use just_another_vpn_server.Session.{udp, established}
use just_another_vpn_server.Session.Control.{
  make_hard_reset_reply, record_sent, process_acks, note_received,
}
use just_another_vpn_server.Session.Slots.{finalize_keys, install_prf_slot}
use just_another_vpn_server.ControlChannel.{
  try_parse, read_lp_string, parse_strings, try_pop_ascii, pop_before, position_nul,
}
use just_another_vpn_server.Server.Plane.{
  push_request, drive_control_plane, plane_loop, plane_step, handle_key_method, handle_message,
  answer_push_request, choose_ip,
}
use just_another_vpn_server.Server.Pool.{allocate_ip, allocate_ip_v6}
use just_another_vpn_server.Server.{VpnServer, Env, Rustls}
use just_another_vpn_server.Server.Tls
use just_another_vpn_server.Server.Wire.{
  unwrap_control, unwrap_with, send_and_track, wrap_for_wire, wrap_with, send_to_peer, send,
  flush_outgoing, flush_acks,
}
use just_another_vpn_server.Server.Dispatch.{
  receive_over, handle_control_packet, handle_parsed, start_session, with_fresh, seed_replay,
  register, with_locked, handle_known, check_replay, handle_op, handle_control, handle_main_control,
}
use just_another_vpn_server.Server.Invariant.{IsKeyed}
use just_another_vpn_server.Server.Invariant.Reach.{here, next, received, Reach-IsKeyed}
use just_another_vpn_server.Server.Fixtures.{idle, env, server, S, blank}

abbrev empty : VpnServer ℕ
empty = record server { sessions = []; tls_crypt = none }

-- A hard reset of the session id 1 with the packet id 0.
abbrev hard_reset : List ℕ
hard_reset = 0x38 ∷ 0 ∷ 0 ∷ 0 ∷ 0 ∷ 0 ∷ 0 ∷ 0 ∷ 1 ∷ 0 ∷ 0 ∷ 0 ∷ 0 ∷ 0 ∷ []

abbrev greeted : VpnServer ℕ
greeted = receive_over env 9 (udp 9) hard_reset empty

-- A connection whose first packet brings the handshake's end, the client's key-method-2 message and a
-- push request.
abbrev plaintext : List ℕ
plaintext = 0 ∷ 0 ∷ 0 ∷ 0 ∷ 2 ∷ (replicate 112 7 ++ (replicate 8 0 ++ (push_request ++ 0 ∷ [])))

abbrev chatty : Rustls ℕ
chatty = record idle {
  read_tls = λ c bytes. (ok (length bytes), 1);
  read = λ c. if c == 1 then (some plaintext, 2) else (some [], c);
  reads = λ c. 1;
  is_handshaking = λ c. false;
}

abbrev chatty_env : Env ℕ
chatty_env = record env { rustls = chatty }

abbrev control : List ℕ
control = 0x20 ∷ 0 ∷ 0 ∷ 0 ∷ 0 ∷ 0 ∷ 0 ∷ 0 ∷ 1 ∷ 0 ∷ 0 ∷ 0 ∷ 0 ∷ 1 ∷ 0x16 ∷ []

abbrev exchanged : VpnServer ℕ
exchanged = receive_over chatty_env 9 (udp 9) control greeted

abbrev or_blank : Option S → S
or_blank none = blank
or_blank (some s) = s

abbrev exchanged_session : S
exchanged_session = or_blank (lookup exchanged.sessions 9)

exchanged_run : lookup exchanged.sessions 9 ≡ some exchanged_session
unfolding receive_over from_u8 unwrap_control unwrap_with handle_control_packet handle_parsed
    start_session with_fresh seed_replay register send_and_track wrap_for_wire wrap_with
    send_to_peer send make_hard_reset_reply record_sent Tls.new parse parse_body parse_tail get_acks
    get_remote get_packet_id from_be to_be encode put_acks put_remote put_packet_id to_u8
    with_locked handle_known check_replay process_acks note_received handle_op handle_control
    handle_main_control Tls.feed Tls.feed_loop Tls.drain_loop Tls.peer_name finalize_keys
    drive_control_plane plane_loop plane_step try_parse read_lp_string parse_strings
    handle_key_method install_prf_slot Tls.send_plaintext handle_message answer_push_request
    choose_ip allocate_ip allocate_ip_v6 try_pop_ascii pop_before position_nul flush_outgoing
    Tls.take_outgoing flush_acks
exchanged_run = refl

exchanged_state : exchanged_session.state ≡ established
unfolding receive_over from_u8 unwrap_control unwrap_with handle_control_packet handle_parsed
    start_session with_fresh seed_replay register send_and_track wrap_for_wire wrap_with
    send_to_peer send make_hard_reset_reply record_sent Tls.new parse parse_body parse_tail get_acks
    get_remote get_packet_id from_be to_be encode put_acks put_remote put_packet_id to_u8
    with_locked handle_known check_replay process_acks note_received handle_op handle_control
    handle_main_control Tls.feed Tls.feed_loop Tls.drain_loop Tls.peer_name finalize_keys
    drive_control_plane plane_loop plane_step try_parse read_lp_string parse_strings
    handle_key_method install_prf_slot Tls.send_plaintext handle_message answer_push_request
    choose_ip allocate_ip allocate_ip_v6 try_pop_ascii pop_before position_nul flush_outgoing
    Tls.take_outgoing flush_acks
exchanged_state = refl

Reach-IsKeyed_example : IsKeyed exchanged_session
Reach-IsKeyed_example =
    Reach-IsKeyed empty exchanged 9 exchanged_session refl
      (next (next here (received env 9 (udp 9) hard_reset empty))
        (received chatty_env 9 (udp 9) control greeted))
      exchanged_run
