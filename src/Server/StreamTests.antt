-- ===== src/Server/StreamTests.antt =====
-- A TCP stream at a concrete server: a packet with an unknown opcode, an empty one, one that is not
-- taken by the peer's writer, and a frame that breaks off.
use just_another_vpn_server.Prelude.{
  ℕ, ◌≡◌, refl, Bool, List, [], ◌∷◌, ◌++◌, inr, arith, leb, length,
}
use just_another_vpn_server.Prelude.Maps.{lookup}
use just_another_vpn_server.Prelude.Bytes.{to_be, from_be}
use just_another_vpn_server.Server.Stream.{run_tcp_stream, write_queue, framed, close_session}
use just_another_vpn_server.Server.Framing.{IsCut, handle_queue, run_tcp_stream-write_queue}
use just_another_vpn_server.Server.Fixtures.{env, server}

abbrev packets : List (List ℕ)
packets = (0xf8 ∷ 1 ∷ []) ∷ [] ∷ (0x28 ∷ 1 ∷ 2 ∷ []) ∷ (0 ∷ 0 ∷ 0 ∷ 0 ∷ []) ∷ []

-- Frames of more than five bytes fail.
abbrev short : List ℕ → Bool
short bytes = leb (length bytes) 5

framed_run : write_queue short packets ≡ 0 ∷ 2 ∷ 0xf8 ∷ 1 ∷ 0 ∷ 0 ∷ 0 ∷ 3 ∷ 0x28 ∷ 1 ∷ 2 ∷ []
unfolding write_queue framed to_be
framed_run = refl

broken_frame : IsCut (0 ∷ 9 ∷ 1 ∷ [])
unfolding from_be
broken_frame = inr (omega arith, omega arith)

run_tcp_stream-write_queue_example :
    run_tcp_stream env 9 (write_queue short packets ++ 0 ∷ 9 ∷ 1 ∷ []) server
    ≡ close_session 9
        (lookup (handle_queue env short 9 packets server).sessions 9)
        (handle_queue env short 9 packets server)
run_tcp_stream-write_queue_example =
    run_tcp_stream-write_queue env short 9 packets (0 ∷ 9 ∷ 1 ∷ []) server broken_frame
