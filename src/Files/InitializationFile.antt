-- ===== src/Files/InitializationFile.antt =====
-- The initialization files (lib/arinc_615a/files/InitializationFile.cpp) and their content,
-- `Information::InitializationResponse`.
pub mod RoundTrip
use arinc_615a_gui_tool_suit.Base.{
  [], ◌∷◌, Bytes, leb, Result, arinc_615a_exception, Coder, ◌>>=◌, ◌>>◌, pure, lift, check,
  value_of, buffer_of, length, replicate,
}
use arinc_615a_gui_tool_suit.RawData.{RawData}
use arinc_615a_gui_tool_suit.Buffer.{insert_end, set_from}
use arinc_615a_gui_tool_suit.Codes.{Version, AcceptanceCode, acceptance_underlying, acceptance_code}
use arinc_615a_gui_tool_suit.Files.ProtocolFile.{
  header_size, insert_header, decode_header, no_more_data,
}
use arinc_615a_gui_tool_suit.Files.Text.{string_encode, string_decode}

pub record InitializationResponse : Type 0 where
  pub code : AcceptanceCode
  pub description : Bytes

pub record InitializationFile : Type 0 where
  pub protocol_version : Version
  pub response : InitializationResponse

module _ ⦃lib : RawData⦄ where
  open lib use {get_int}

  pub encode : InitializationFile → Result Bytes
  encode file = buffer_of (
      (do
        set_from header_size ((2, acceptance_underlying file.response.code) ∷ [])
        raw_message ← lift (string_encode file.response.description 0)
        insert_end raw_message
        insert_header file.protocol_version)
        (replicate 8 0))

  pub decode : Bytes → Result InitializationFile
  decode raw_data = value_of (
      (do
        check (leb 9 (length raw_data)) arinc_615a_exception
        version ← decode_header
        int_status_code ← get_int 2
        code ← lift (acceptance_code int_status_code)
        description ← string_decode
        no_more_data
        pure (record {
          protocol_version = version;
          response = record { code = code; description = description };
        }))
        raw_data)
