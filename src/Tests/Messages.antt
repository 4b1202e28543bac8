-- ===== src/Tests/Messages.antt =====
-- Instances of the properties of names of protocol files, and tests of TFTP error messages.
use arinc_615a_gui_tool_suit.Base.{◌≡◌, refl, [], ◌∷◌, ◌++◌, true, ok, pos}
use arinc_615a_gui_tool_suit.Codes.{operation_aborted_by_dlp}
use arinc_615a_gui_tool_suit.TargetId.{TargetId, to_string}
use arinc_615a_gui_tool_suit.ErrorMessage.{abort_message, wait_message, abort_error_string}
use arinc_615a_gui_tool_suit.Files.ProtocolFilename.{
  ProtocolFilename, upload_status, is_named, text_of, is_protocol_filename, extension_of,
}
use arinc_615a_gui_tool_suit.Files.ProtocolFilename.Text.{is_protocol_filename_iff}
use arinc_615a_gui_tool_suit.Tests.Data.{load_name}
use mathlib.Core.Logic.{◌↔◌}

-- "LOAD_L"
abbrev load_l : TargetId
load_l = record { thw_id = load_name; position = 76 ∷ [] }

-- "ABORT:1004"
abort_message_test :
    abort_message operation_aborted_by_dlp ≡ abort_error_string ++ (49 ∷ 48 ∷ 48 ∷ 52 ∷ [])
unfolding abort_message
abort_message_test = refl

-- "WAIT:100"
wait_message_test : wait_message (pos 100) ≡ ok (87 ∷ 65 ∷ 73 ∷ 84 ∷ 58 ∷ 49 ∷ 48 ∷ 48 ∷ [])
unfolding wait_message
wait_message_test = refl

-- "LOAD_L.LUS"
abbrev load_l_status : ProtocolFilename
load_l_status = record { target_id = load_l; type = upload_status }

text_of_test : text_of load_l_status ≡ to_string load_l ++ (46 ∷ 76 ∷ 85 ∷ 83 ∷ [])
unfolding extension_of
text_of_test = refl

is_protocol_filename_iff_example :
    (is_protocol_filename (text_of load_l_status) ≡ true)
    ↔ ((f : ProtocolFilename) × (is_named f ≡ true) × (text_of load_l_status ≡ text_of f))
is_protocol_filename_iff_example = is_protocol_filename_iff (text_of load_l_status)
