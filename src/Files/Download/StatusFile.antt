-- ===== src/Files/Download/StatusFile.antt =====
-- The download status file (lib/arinc_615a/files/download/DownloadOperationStatusFile.cpp).
pub mod RoundTrip
use arinc_615a_gui_tool_suit.Base.{
  [], ◌∷◌, Bytes, leb, Result, arinc_615a_exception, Coder, ◌>>=◌, ◌>>◌, pure, lift, check,
  value_of, buffer_of, length, replicate, for_each, repeat,
}
use arinc_615a_gui_tool_suit.RawData.{RawData}
use arinc_615a_gui_tool_suit.Buffer.{insert_end, extend, set_from, set_last}
use arinc_615a_gui_tool_suit.Codes.{Version, to_underlying, status_code}
use arinc_615a_gui_tool_suit.Status.{Status, FileStatus, DownloadStatus}
use arinc_615a_gui_tool_suit.Files.ProtocolFile.{
  header_size, insert_header, decode_header, no_more_data,
}
use arinc_615a_gui_tool_suit.Files.Ratio.{ratio_encode, ratio_decode}
use arinc_615a_gui_tool_suit.Files.Text.{string_encode, string_decode}

pub record DownloadStatusFile : Type 0 where
  pub protocol_version : Version
  pub status : DownloadStatus

module _ ⦃lib : RawData⦄ where
  open lib use {get_int, safe_cast}

  abbrev pub add_file : FileStatus → Coder (Unit {0})
  add_file file = do
    raw_filename ← lift (string_encode file.filename 0)
    insert_end raw_filename
    extend 2
    set_last 2 ((2, to_underlying file.code) ∷ [])
    raw_status_description ← lift (string_encode file.description 0)
    insert_end raw_status_description

  pub encode : DownloadStatusFile → Result Bytes
  encode file = buffer_of (
      (do
        set_from header_size ((2, to_underlying code) ∷ [])
        raw_description ← lift (string_encode description 0)
        insert_end raw_description
        extend 6
        set_last 6 ((2, counter) ∷ (2, exception_timer) ∷ (2, estimated_time) ∷ [])
        insert_end (ratio_encode list_ratio)
        check (leb (length files) 0xffff) arinc_615a_exception
        extend 2
        number_of_files ← lift (safe_cast 2 (length files))
        set_last 2 ((2, number_of_files) ∷ [])
        for_each add_file files
        insert_header file.protocol_version)
        (replicate 8 0))
    where
      open file.status use {status.{counter, code, exception_timer, estimated_time, description}}
      open file.status use {list_ratio, files}

  abbrev pub read_file : Coder FileStatus
  read_file = do
    filename ← string_decode
    int_file_status_code ← get_int 2
    file_status_description ← string_decode
    code ← lift (status_code int_file_status_code)
    pure (record { filename = filename; code = code; description = file_status_description })

  pub decode : Bytes → Result DownloadStatusFile
  decode raw_data = value_of (
      (do
        check (leb 15 (length raw_data)) arinc_615a_exception
        version ← decode_header
        int_status_code ← get_int 2
        code ← lift (status_code int_status_code)
        description ← string_decode
        counter ← get_int 2
        exception_timer ← get_int 2
        estimated_time ← get_int 2
        list_ratio ← ratio_decode
        number_of_files ← get_int 2
        files ← repeat read_file number_of_files []
        no_more_data
        pure (record {
          protocol_version = version;
          status = record {
            status = record {
              counter = counter;
              exception_timer = exception_timer;
              estimated_time = estimated_time;
              code = code;
              description = description;
            };
            list_ratio = list_ratio;
            files = files;
          };
        }))
        raw_data)
