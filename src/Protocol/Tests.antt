-- ===== src/Protocol/Tests.antt =====
-- The packets of the source's tests, and the theorems at concrete inputs.
use just_another_vpn_server.Prelude.{ℕ, ◌≡◌, refl, List, [], ◌∷◌, ◌++◌, some, ok, err, Error, arith}
use just_another_vpn_server.Prelude.Bytes.{buf, buf-IsBuf, to_be, from_be}
use just_another_vpn_server.Protocol.{
  ControlPacket, control_v1, parse, parse_body, parse_tail, encode, from_u8, to_u8, get_acks,
  get_remote, get_packet_id, put_acks, put_remote, put_packet_id, parse_data,
}
use just_another_vpn_server.Protocol.Wire.{IsWire}
use just_another_vpn_server.Protocol.RoundTrip.{parse-encode}
use just_another_vpn_server.Protocol.Canonical.{encode-parse}
use just_another_vpn_server.Protocol.Data.{data_header, parse_data-data_header}

abbrev control_42 : ControlPacket
control_42 = record {
  op = control_v1;
  key_id = 0;
  session_id = 42;
  acks = 1 ∷ 2 ∷ [];
  remote_session_id = some 99;
  packet_id = some 7;
  payload = 0xde ∷ 0xad ∷ 0xbe ∷ 0xef ∷ [];
}

abbrev control_42_bytes : List ℕ
control_42_bytes =
    0x20 ∷ 0 ∷ 0 ∷ 0 ∷ 0 ∷ 0 ∷ 0 ∷ 0 ∷ 42 ∷ 2 ∷ 0 ∷ 0 ∷ 0 ∷ 1 ∷ 0 ∷ 0 ∷ 0 ∷ 2 ∷ 0 ∷ 0 ∷ 0 ∷ 0 ∷ 0
    ∷ 0 ∷ 0 ∷ 99 ∷ 0 ∷ 0 ∷ 0 ∷ 7 ∷ 0xde ∷ 0xad ∷ 0xbe ∷ 0xef ∷ []

encode_run : encode buf control_42 ≡ control_42_bytes
unfolding encode put_acks put_remote put_packet_id to_u8 to_be
encode_run = refl

parse_run : parse buf control_42_bytes ≡ ok control_42
unfolding parse parse_body parse_tail get_acks get_remote get_packet_id from_u8 from_be
parse_run = refl

parse_empty : parse buf [] ≡ err Error.empty_packet
unfolding parse
parse_empty = refl

control_42-IsWire : IsWire control_42
control_42-IsWire = record {
  control = refl;
  key = omega arith;
  session = omega arith;
  few_acks = omega arith;
  acks_fit = omega arith;
  remote = omega arith;
  pid = omega arith;
}

parse-encode_example : parse buf (encode buf control_42) ≡ ok control_42
parse-encode_example = parse-encode buf-IsBuf control_42 control_42-IsWire

encode-parse_example : IsWire control_42 × (encode buf control_42 ≡ control_42_bytes)
encode-parse_example = encode-parse buf-IsBuf control_42_bytes control_42 (omega arith) parse_run

parse_data_example :
    parse_data (data_header 3 0x1234 7 ++ 1 ∷ 2 ∷ 3 ∷ 4 ∷ [])
    ≡ ok (record { key_id = 3; peer_id = 0x1234; packet_id = 7; ciphertext = 1 ∷ 2 ∷ 3 ∷ 4 ∷ [] })
parse_data_example =
    parse_data-data_header 3 0x1234 7 (1 ∷ 2 ∷ 3 ∷ 4 ∷ []) (omega arith) (omega arith) (omega arith)
