-- ===== src/Tests/FindPackets.antt =====
-- Instances of the properties of FIND packets and of the FIND server.
use arinc_615a_gui_tool_suit.Base.{Result, some, ℕ, ◌≡◌, refl, [], ◌∷◌, Bytes, arith, ok, length}
use arinc_615a_gui_tool_suit.BigEndian.{big_endian}
use arinc_615a_gui_tool_suit.Files.Text.{find_null}
use arinc_615a_gui_tool_suit.Find.Packet.{
  drop_back, all_text, scan, information_request, Packet, decode, encode, empty_packet,
}
use arinc_615a_gui_tool_suit.Find.Packet.RoundTrip.{
  IsPacket, decode-encode_packet, encode-decode_packet,
}
use arinc_615a_gui_tool_suit.Find.Handler.{
  Statistic, count_packet, reset, receive_packet, TargetInformation, answer_packet, server_handler,
}
use arinc_615a_gui_tool_suit.Find.Handler.Delivery.{receive_packet-request}
use arinc_615a_gui_tool_suit.Tests.Data.{test_123, load_name, load_name-IsStored}

abbrev fresh : Statistic
fresh = reset

-- An endpoint.
abbrev remote : ℕ
remote = 5

-- A request on the wire: the opcode, an empty parameter and the terminator.
abbrev raw_request : Bytes
raw_request = 0 ∷ 1 ∷ 0 ∷ 0x10 ∷ []

raw_request_read : decode raw_request ≡ ok (empty_packet information_request 1)
unfolding decode drop_back all_text scan find_null
raw_request_read = refl

encode_test : encode (empty_packet information_request 1) ≡ raw_request
unfolding encode
encode_test = refl

abbrev information : TargetInformation
information = record {
  thw_id = load_name;
  thw_type_name = test_123;
  thw_position = 76 ∷ [];
  literal_name = [];
  manufacturer_code = load_name;
}

abbrev answer : Packet
answer = answer_packet information

answer-IsPacket : IsPacket answer
answer-IsPacket = record { known = λ e. cc; some_parameter = omega arith; texts = ground arith }

decode-encode_packet_example : decode (encode answer) ≡ ok answer
decode-encode_packet_example = decode-encode_packet answer answer-IsPacket

encode-decode_packet_example :
    IsPacket (empty_packet information_request 1)
    × (encode (empty_packet information_request 1) ≡ raw_request)
encode-decode_packet_example =
    encode-decode_packet raw_request (empty_packet information_request 1) raw_request_read

-- A request handler that throws nothing.
abbrev quiet : ℕ → Result (Unit {0})
quiet r = ok tt

receive_packet-request_example :
    receive_packet
      (server_handler (some quiet))
      remote
      (encode (record { opcode = information_request; parameters = load_name ∷ [] }))
      []
      fresh
    ≡ ok (
      remote ∷ [],
      count_packet information_request
          (length (encode (record { opcode = information_request; parameters = load_name ∷ [] })))
          fresh,
    )
receive_packet-request_example =
    receive_packet-request remote quiet load_name [] [] fresh refl (load_name-IsStored.0, tt)
