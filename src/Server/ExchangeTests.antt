-- ===== src/Server/ExchangeTests.antt =====
-- A concrete exchange: a client without options, and a server with free addresses.
use just_another_vpn_server.Prelude.{ℕ, ◌≡◌, refl, [], ◌∷◌, ◌++◌, none, ok, arith, replicate}
use just_another_vpn_server.ControlChannel.{ClientKeyMethod2}
use just_another_vpn_server.ControlChannel.RoundTrip.{IsMessage, client_message}
use just_another_vpn_server.Primitives.{toy}
use just_another_vpn_server.Session.{key_exchange}
use just_another_vpn_server.Server.{Locked}
use just_another_vpn_server.Server.Plane.{drive_control_plane, push_request, choose_ip}
use just_another_vpn_server.Server.Pool.{allocate_ip, allocate_ip_v6}
use just_another_vpn_server.Server.Exchange.Complete.{
  IsAnswered, drive_control_plane-client_message,
}
use just_another_vpn_server.Server.Fixtures.{env, server, blank}

abbrev client : ClientKeyMethod2
client = record {
  pre_master = replicate 48 1;
  random1 = replicate 32 2;
  random2 = replicate 32 3;
  options = 86 ∷ 52 ∷ [];
  username = [];
  password = [];
  peer_info = [];
}

client-IsMessage : IsMessage toy client
client-IsMessage = record {
  pre_master_size = refl;
  random1_size = refl;
  random2_size = refl;
  options_text = (omega arith, refl);
  username_text = (omega arith, refl);
  password_text = (omega arith, refl);
  peer_info_text = (omega arith, refl);
}

abbrev waiting : Locked ℕ
waiting =
    let tls = record blank.tls { plaintext_in = client_message client (push_request ++ 0 ∷ []) } in
    let sess = record blank { state = key_exchange; tls = tls } in
    record { sess = sess; server = server }

next_free : (choose_ip none server).0 ≡ ok 0x0a080003
unfolding choose_ip allocate_ip
next_free = refl

no_v6 : (allocate_ip_v6 server).0 ≡ ok none
unfolding allocate_ip_v6
no_v6 = refl

drive_control_plane-client_message_example :
    ((drive_control_plane env 9 waiting).0 ≡ ok tt)
    × IsAnswered env 9 client 0x0a080003 none waiting (drive_control_plane env 9 waiting).1
drive_control_plane-client_message_example =
    drive_control_plane-client_message env 9 client 0x0a080003 none waiting client-IsMessage refl
      (λ c bytes. refl) refl refl refl next_free no_v6
