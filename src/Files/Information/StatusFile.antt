-- ===== src/Files/Information/StatusFile.antt =====
-- The status file of the information operation
-- (lib/arinc_615a/files/information/InformationOperationStatusFile.cpp).
pub mod RoundTrip
use arinc_615a_gui_tool_suit.Base.{
  [], ◌∷◌, Bytes, leb, Result, arinc_615a_exception, Coder, ◌>>=◌, ◌>>◌, pure, lift, check,
  value_of, buffer_of, length, replicate,
}
use arinc_615a_gui_tool_suit.RawData.{RawData}
use arinc_615a_gui_tool_suit.Buffer.{insert_end, set_from}
use arinc_615a_gui_tool_suit.Codes.{Version, to_underlying, status_code}
use arinc_615a_gui_tool_suit.Status.{Status}
use arinc_615a_gui_tool_suit.Files.ProtocolFile.{
  header_size, insert_header, decode_header, no_more_data,
}
use arinc_615a_gui_tool_suit.Files.Text.{string_encode, string_decode}

pub record InformationStatusFile : Type 0 where
  pub protocol_version : Version
  pub status : Status

module _ ⦃lib : RawData⦄ where
  open lib use {get_int}

  pub encode : InformationStatusFile → Result Bytes
  encode file = buffer_of (
      (do
        set_from header_size (
            (2, counter)
            ∷ (2, to_underlying code)
            ∷ (2, exception_timer)
            ∷ (2, estimated_time)
            ∷ [])
        raw_description ← lift (string_encode description 0)
        insert_end raw_description
        insert_header file.protocol_version)
        (replicate 14 0))
    where
      open file.status use {counter, code, exception_timer, estimated_time, description}

  -- The status is set field by field, the description after the code, which clears it.
  pub decode : Bytes → Result InformationStatusFile
  decode raw_data = value_of (
      (do
        check (leb 15 (length raw_data)) arinc_615a_exception
        version ← decode_header
        counter ← get_int 2
        int_status_code ← get_int 2
        code ← lift (status_code int_status_code)
        exception_timer ← get_int 2
        estimated_time ← get_int 2
        description ← string_decode
        no_more_data
        pure (record {
          protocol_version = version;
          status = record {
            counter = counter;
            exception_timer = exception_timer;
            estimated_time = estimated_time;
            code = code;
            description = description;
          };
        }))
        raw_data)
