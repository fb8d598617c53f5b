-- ===== src/Server/Tests.antt =====
-- The theorems on the handlers at concrete states.
use just_another_vpn_server.Prelude.{
  ℕ, ◌≡◌, ◌⊎◌, refl, [], ◌∷◌, none, some, arith, ok, err, Error, All,
}
use just_another_vpn_server.Prelude.Bytes.{to_be}
use just_another_vpn_server.Prelude.Maps.{lookup}
use just_another_vpn_server.Primitives.{toy, toy-IsPrimitives}
use just_another_vpn_server.Protocol.{to_u8, from_u8, is_data}
use just_another_vpn_server.Session.{push_pending}
use just_another_vpn_server.Server.{Locked, Env}
use just_another_vpn_server.Server.Plane.{plane_loop, drive_control_plane}
use just_another_vpn_server.Server.Handshake.{drive_control_plane-plane_loop}
use just_another_vpn_server.Server.Wire.{
  send_and_track, wrap_for_wire, wrap_with, send_to_peer, send,
}
use just_another_vpn_server.Session.Control.{next_tls_auth_pid, make_control}
use just_another_vpn_server.TlsCrypt
use just_another_vpn_server.Protocol.{
  ControlPacket, control_v1, encode, put_acks, put_remote, put_packet_id,
}
use just_another_vpn_server.Prelude.{ap, sym, ok-injective, List, replicate, false, is_empty}
use just_another_vpn_server.Prelude.Bytes.{buf-IsBuf}
use just_another_vpn_server.Server.Sending.{IsSentAs, send_and_track-IsSentAs}
use just_another_vpn_server.Server.Pool.{allocate_ip}
use just_another_vpn_server.Server.Timers.{evict}
use just_another_vpn_server.Server.Wire.{chunks, flush_outgoing, send_chunks}
use just_another_vpn_server.Server.Tls.{take_outgoing}
use just_another_vpn_server.Server.Dispatch.{receive}
use just_another_vpn_server.Server.Leases.{
  PoolUse, request, evicted, allocate_all, allocate_all-count_up, evict-forgets,
}
use just_another_vpn_server.Server.Reliable.{
  concat, IsFragment, IsCarried, flush_outgoing-IsCarried,
}
use just_another_vpn_server.Server.Envelope.{IsEnveloped, IsNoData, receive-IsEnveloped}
use just_another_vpn_server.Server.Fixtures.{env, blank, leased, crypt_key, server}

-- Between the requests the session that leases the first address is evicted.
abbrev uses : List (PoolUse ℕ)
uses = request ∷ evicted 9 leased ∷ request ∷ []

allocate_all-count_up_example :
    ((allocate_all uses server).0 ≡ ok 0x0a080003 ∷ ok 0x0a080004 ∷ [])
    × (allocate_ip (allocate_all uses server).1
        ≡ (err Error.pool_exhausted, (allocate_all uses server).1))
allocate_all-count_up_example = allocate_all-count_up uses server (omega arith) (omega arith)

evict-forgets_example :
    let after = evict 9 leased server in
    (lookup after.sessions 8 ≡ some blank)
    × (lookup after.routes 8 ≡ none)
    × (lookup after.routes_v6 8 ≡ none)
    × (lookup after.data_routes 8 ≡ none)
    × (lookup after.peers 8 ≡ none)
evict-forgets_example = evict-forgets 9 leased server 8

-- A connection with 1101 bytes to send, which take two packets.
abbrev chatting : Env ℕ
chatting = record env { rustls = record env.rustls { write_tls = λ c. (replicate 1101 22, c) } }

abbrev flushing : Locked ℕ
flushing = record {
  sess = record blank { pending_acks = 3 ∷ [] };
  server = record server { tls_crypt = none };
}

flush_run : (flush_outgoing chatting flushing).0 ≡ ok tt
unfolding flush_outgoing send_chunks make_control take_outgoing chunks send_and_track wrap_for_wire
    wrap_with send_to_peer send
flush_run = refl

flush_bytes : is_empty (take_outgoing chatting.rustls flushing.sess.tls).0 ≡ false
unfolding take_outgoing
flush_bytes = refl

flush_outgoing-IsCarried_example :
    (parts : List (List ℕ)) × (packets : List ControlPacket) × (concat parts
      ≡ (take_outgoing chatting.rustls flushing.sess.tls).0)
    × All (IsFragment 1100) parts
    × IsCarried chatting flushing (flush_outgoing chatting flushing).1 0 parts packets
flush_outgoing-IsCarried_example =
    flush_outgoing-IsCarried chatting flushing (flush_outgoing chatting flushing).1 flush_bytes
      (ap (λ r. (r, (flush_outgoing chatting flushing).1)) flush_run)

-- An acknowledgement that is too short for its envelope.
short_ack-IsNoData : IsNoData (0x28 ∷ 1 ∷ 2 ∷ [])
unfolding from_u8
short_ack-IsNoData op e = ap is_data (sym (ok-injective e))

receive-IsEnveloped_example :
    (receive env 9 (0x28 ∷ 1 ∷ 2 ∷ []) server ≡ server)
    ⊎ IsEnveloped toy (some crypt_key) none (0x28 ∷ 1 ∷ 2 ∷ [])
receive-IsEnveloped_example =
    receive-IsEnveloped env toy-IsPrimitives 9 (0x28 ∷ 1 ∷ 2 ∷ []) server (omega arith)
      short_ack-IsNoData

abbrev pushing : Locked ℕ
pushing = record {
  sess = record blank {
    state = push_pending;
    tls = record { conn = 0; plaintext_in = 0x41 ∷ 0 ∷ 0x42 ∷ 0 ∷ 0x43 ∷ [] };
  };
  server = server;
}

drive_control_plane-plane_loop_example :
    plane_loop env 9 50 pushing ≡ drive_control_plane env 9 pushing
drive_control_plane-plane_loop_example =
    drive_control_plane-plane_loop env 9 50 pushing (omega arith)

abbrev sending : Locked ℕ
sending = record { sess = blank; server = server }

abbrev hello : ControlPacket
hello = record {
  op = control_v1;
  key_id = 0;
  session_id = 42;
  acks = [];
  remote_session_id = none;
  packet_id = some 3;
  payload = 0x16 ∷ [];
}

sending_run : (send_and_track env hello sending).0 ≡ ok tt
unfolding send_and_track wrap_for_wire wrap_with next_tls_auth_pid send_to_peer send TlsCrypt.wrap
    encode put_acks put_remote put_packet_id to_u8 to_be
sending_run = refl

send_and_track-IsSentAs_example :
    IsSentAs env buf-IsBuf toy-IsPrimitives sending
      (send_and_track env hello sending).1
      crypt_key
      hello
      3
send_and_track-IsSentAs_example =
    send_and_track-IsSentAs env buf-IsBuf toy-IsPrimitives sending
      (send_and_track env hello sending).1 crypt_key hello 3 refl refl (omega arith)
      (ap (λ r. (r, (send_and_track env hello sending).1)) sending_run)
