-- ===== src/ControlChannel/Tests.antt =====
-- A client's message, whole and followed by more input.
use just_another_vpn_server.Prelude.{
  ◌≡◌, refl, [], ◌∷◌, ◌++◌, ◌≤◌, ◌<◌, replicate, length, ok, err, Error, arith,
}
use just_another_vpn_server.Primitives.{toy}
use just_another_vpn_server.ControlChannel.{
  ClientKeyMethod2, ready, need_more, try_parse, try_pop_ascii,
}
use just_another_vpn_server.ControlChannel.Stream.{try_parse-append, try_pop_ascii-nul}
use just_another_vpn_server.ControlChannel.RoundTrip.{
  IsMessage, client_message, try_parse-client_message,
}

abbrev message : ClientKeyMethod2
message = record {
  pre_master = replicate 48 1;
  random1 = replicate 32 2;
  random2 = replicate 32 3;
  options = 0x56 ∷ 0x34 ∷ [];
  username = [];
  password = [];
  peer_info = 0x49 ∷ 0x56 ∷ 0x3d ∷ [];
}

message-IsMessage : IsMessage toy message
message-IsMessage = record {
  pre_master_size = refl;
  random1_size = refl;
  random2_size = refl;
  options_text = (omega arith, refl);
  username_text = (omega arith, refl);
  password_text = (omega arith, refl);
  peer_info_text = (omega arith, refl);
}

try_parse-client_message_example :
    try_parse toy (client_message message (0x50 ∷ [])) ≡ ok (ready message 134)
try_parse-client_message_example =
    try_parse-client_message toy message (0x50 ∷ []) message-IsMessage

short_run : try_parse toy (0 ∷ 0 ∷ 0 ∷ 0 ∷ 2 ∷ []) ≡ ok need_more
unfolding try_parse
short_run = refl

bad_prefix_run : try_parse toy (replicate 200 7) ≡ err Error.bad_zero_prefix
unfolding try_parse
bad_prefix_run = refl

message_run : try_parse toy (client_message message []) ≡ ok (ready message 134)
message_run = try_parse-client_message toy message [] message-IsMessage

try_parse-append_example :
    (try_parse toy (client_message message [] ++ 1 ∷ 2 ∷ []) ≡ ok (ready message 134))
    × (134 ≤ length (client_message message []))
    × (117 < 134)
try_parse-append_example =
    try_parse-append toy (client_message message []) (1 ∷ 2 ∷ []) message 134 message_run

try_pop_ascii-nul_example :
    (try_pop_ascii toy (0x50 ∷ 0x55 ∷ 0 ∷ 9 ∷ []) ≡ ready (0x50 ∷ 0x55 ∷ []) 3)
    × (try_pop_ascii toy (0x50 ∷ 0x55 ∷ []) ≡ need_more)
try_pop_ascii-nul_example = try_pop_ascii-nul toy (0x50 ∷ 0x55 ∷ []) (9 ∷ []) (ground arith)
