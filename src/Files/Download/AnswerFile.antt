-- ===== src/Files/Download/AnswerFile.antt =====
-- The download answer file (lib/arinc_615a/files/download/DownloadOperationAnswerFile.cpp): the
-- names of the files that the operator selected.
pub mod RoundTrip
use arinc_615a_gui_tool_suit.Base.{
  ℕ, ◌+◌, List, [], ◌∷◌, Bytes, leb, Result, arinc_615a_exception, Coder, ◌>>=◌, ◌>>◌, pure, lift,
  check, value_of, buffer_of, length, replicate, for_each, repeat,
}
use arinc_615a_gui_tool_suit.RawData.{RawData}
use arinc_615a_gui_tool_suit.Buffer.{insert_end, set_from}
use arinc_615a_gui_tool_suit.Codes.{Version}
use arinc_615a_gui_tool_suit.Files.ProtocolFile.{
  header_size, insert_header, decode_header, no_more_data,
}
use arinc_615a_gui_tool_suit.Files.Text.{string_encode, string_decode}

pub record AnswerFile : Type 0 where
  pub protocol_version : Version
  pub files : List Bytes

abbrev pub minimum_size : ℕ
minimum_size = 8

module _ ⦃lib : RawData⦄ where
  open lib use {get_int, safe_cast}

  abbrev pub add_file : Bytes → Coder (Unit {0})
  add_file file = do filename ← lift (string_encode file 0); insert_end filename

  pub encode : AnswerFile → Result Bytes
  encode file = buffer_of (
      (do
        check (leb (length file.files) 0xffff) arinc_615a_exception
        number_of_files ← lift (safe_cast 2 (length file.files))
        set_from header_size ((2, number_of_files) ∷ [])
        for_each add_file file.files
        insert_header file.protocol_version)
        (replicate minimum_size 0))

  -- `operator=`: the names are added behind those that the object holds already; a new object
  -- holds none.
  pub decode : AnswerFile → Bytes → Result AnswerFile
  decode file raw_data = value_of (
      (do
        check (leb minimum_size (length raw_data)) arinc_615a_exception
        version ← decode_header
        number_of_files ← get_int 2
        files ← repeat string_decode number_of_files file.files
        no_more_data
        pure (record { protocol_version = version; files = files }))
        raw_data)
