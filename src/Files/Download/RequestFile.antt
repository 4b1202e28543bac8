-- ===== src/Files/Download/RequestFile.antt =====
-- The request file of the media defined download
-- (lib/arinc_615a/files/download/DownloadOperationRequestFile.cpp): file names and user data.
pub mod RoundTrip
use arinc_615a_gui_tool_suit.Base.{
  ℕ, ◌==◌, List, [], ◌∷◌, Bytes, leb, Result, arinc_615a_exception, Coder, ◌>>=◌, ◌>>◌, pure, lift,
  check, value_of, buffer_of, length, replicate, for_each, repeat,
}
use arinc_615a_gui_tool_suit.RawData.{RawData}
use arinc_615a_gui_tool_suit.Buffer.{insert_end, extend, set_from, set_last}
use arinc_615a_gui_tool_suit.Codes.{Version}
use arinc_615a_gui_tool_suit.Files.ProtocolFile.{header_size, insert_header, decode_header}
use arinc_615a_gui_tool_suit.Files.Text.{string_encode, string_decode}

pub record RequestFile : Type 0 where
  pub protocol_version : Version
  pub files : List Bytes
  pub user_defined_data : Bytes

abbrev pub minimum_size : ℕ
minimum_size = 9

-- The rest of the file, if it has the size that the length field says.
abbrev pub user_data : ℕ → Coder Bytes
user_data size remaining =
    (do check (length remaining == size) arinc_615a_exception; pure remaining) remaining

module _ ⦃lib : RawData⦄ where
  open lib use {get_int, safe_cast}

  abbrev pub add_file : Bytes → Coder (Unit {0})
  add_file file = do filename ← lift (string_encode file 0); insert_end filename

  pub encode : RequestFile → Result Bytes
  encode file = buffer_of (
      (do
        check (leb (length file.files) 0xffff) arinc_615a_exception
        number_of_files ← lift (safe_cast 2 (length file.files))
        set_from header_size ((2, number_of_files) ∷ [])
        for_each add_file file.files
        check (leb (length file.user_defined_data) 0xff) arinc_615a_exception
        extend 1
        size ← lift (safe_cast 1 (length file.user_defined_data))
        set_last 1 ((1, size) ∷ [])
        insert_end file.user_defined_data
        insert_header file.protocol_version)
        (replicate 8 0))

  -- `operator=`: the names are added behind those that the object holds already, and the user data
  -- are replaced.
  pub decode : RequestFile → Bytes → Result RequestFile
  decode file raw_data = value_of (
      (do
        check (leb minimum_size (length raw_data)) arinc_615a_exception
        version ← decode_header
        number_of_files ← get_int 2
        files ← repeat string_decode number_of_files file.files
        user_defined_data_length ← get_int 1
        user_defined_data ← user_data user_defined_data_length
        pure (record {
          protocol_version = version;
          files = files;
          user_defined_data = user_defined_data;
        }))
        raw_data)
