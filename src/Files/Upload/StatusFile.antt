-- ===== src/Files/Upload/StatusFile.antt =====
-- The upload status file (lib/arinc_615a/files/upload/UploadOperationStatusFile.cpp). The handler
-- for `std::invalid_argument` in its loop never runs: `Ratio_decode` turns that exception into its
-- own.
pub mod RoundTrip
use arinc_615a_gui_tool_suit.Base.{
  [], ◌∷◌, Bytes, leb, Result, arinc_615a_exception, Coder, ◌>>=◌, ◌>>◌, pure, lift, check,
  value_of, buffer_of, length, replicate, for_each, repeat,
}
use arinc_615a_gui_tool_suit.RawData.{RawData}
use arinc_615a_gui_tool_suit.Buffer.{insert_end, extend, set_from, set_last}
use arinc_615a_gui_tool_suit.Codes.{Version, to_underlying, status_code}
use arinc_615a_gui_tool_suit.Status.{Status, LoadStatus, UploadStatus}
use arinc_615a_gui_tool_suit.Files.ProtocolFile.{
  header_size, insert_header, decode_header, no_more_data,
}
use arinc_615a_gui_tool_suit.Files.Ratio.{ratio_encode, ratio_decode}
use arinc_615a_gui_tool_suit.Files.Text.{string_encode, string_decode}

pub record UploadStatusFile : Type 0 where
  pub protocol_version : Version
  pub status : UploadStatus

module _ ⦃lib : RawData⦄ where
  open lib use {get_int, safe_cast}

  abbrev pub add_load : LoadStatus → Coder (Unit {0})
  add_load load = do
    raw_header_filename ← lift (string_encode load.header_filename 0)
    insert_end raw_header_filename
    raw_load_part_number ← lift (string_encode load.part_number 0)
    insert_end raw_load_part_number
    insert_end (ratio_encode load.ratio)
    extend 2
    set_last 2 ((2, to_underlying load.code) ∷ [])
    raw_load_description ← lift (string_encode load.description 0)
    insert_end raw_load_description

  pub encode : UploadStatusFile → Result Bytes
  encode file = buffer_of (
      (do
        set_from header_size ((2, to_underlying code) ∷ [])
        raw_description ← lift (string_encode description 0)
        insert_end raw_description
        extend 6
        set_last 6 ((2, counter) ∷ (2, exception_timer) ∷ (2, estimated_time) ∷ [])
        insert_end (ratio_encode list_ratio)
        extend 2
        check (leb (length loads) 0xffff) arinc_615a_exception
        number_of_loads ← lift (safe_cast 2 (length loads))
        set_last 2 ((2, number_of_loads) ∷ [])
        for_each add_load loads
        insert_header file.protocol_version)
        (replicate 8 0))
    where
      open file.status use {status.{counter, code, exception_timer, estimated_time, description}}
      open file.status use {list_ratio, loads}

  abbrev pub read_load : Coder LoadStatus
  read_load = do
    header_filename ← string_decode
    load_part_number ← string_decode
    load_ratio ← ratio_decode
    int_load_status_code ← get_int 2
    load_status_description ← string_decode
    code ← lift (status_code int_load_status_code)
    pure (record {
      header_filename = header_filename;
      part_number = load_part_number;
      ratio = load_ratio;
      code = code;
      description = load_status_description;
    })

  -- The loads of the object are replaced.
  pub decode : Bytes → Result UploadStatusFile
  decode raw_data = value_of (
      (do
        check (leb 15 (length raw_data)) arinc_615a_exception
        version ← decode_header
        int_status_code ← get_int 2
        code ← lift (status_code int_status_code)
        description ← string_decode
        counter ← get_int 2
        exception_timer ← get_int 2
        estimated_time ← get_int 2
        list_ratio ← ratio_decode
        number_of_header_files ← get_int 2
        loads ← repeat read_load number_of_header_files []
        no_more_data
        pure (record {
          protocol_version = version;
          status = record {
            status = record {
              counter = counter;
              exception_timer = exception_timer;
              estimated_time = estimated_time;
              code = code;
              description = description;
            };
            list_ratio = list_ratio;
            loads = loads;
          };
        }))
        raw_data)
