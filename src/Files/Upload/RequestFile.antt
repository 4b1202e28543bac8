-- ===== src/Files/Upload/RequestFile.antt =====
-- The upload request file (lib/arinc_615a/files/upload/UploadOperationRequestFile.cpp): the loads
-- to be uploaded, by header file and part number.
pub mod RoundTrip
use arinc_615a_gui_tool_suit.Base.{
  ℕ, ◌+◌, List, [], ◌∷◌, Bytes, leb, Result, arinc_615a_exception, Coder, ◌>>=◌, ◌>>◌, pure, lift,
  check, value_of, buffer_of, length, replicate, for_each, repeat,
}
use arinc_615a_gui_tool_suit.RawData.{RawData}
use arinc_615a_gui_tool_suit.Buffer.{insert_end, extend, set_from, set_last}
use arinc_615a_gui_tool_suit.Codes.{Version}
use arinc_615a_gui_tool_suit.Files.ProtocolFile.{
  header_size, insert_header, decode_header, no_more_data,
}
use arinc_615a_gui_tool_suit.Files.Text.{string_encode, string_decode}

-- `Information::UploadLoad`
pub record UploadLoad : Type 0 where
  pub header_filename : Bytes
  pub part_number : Bytes

pub record RequestFile : Type 0 where
  pub protocol_version : Version
  pub loads : List UploadLoad

abbrev pub minimum_size : ℕ
minimum_size = 8

module _ ⦃lib : RawData⦄ where
  open lib use {get_int, safe_cast}

  abbrev pub add_load : UploadLoad → Coder (Unit {0})
  add_load load = do
    header_filename ← lift (string_encode load.header_filename 0)
    part_number ← lift (string_encode load.part_number 0)
    insert_end header_filename
    insert_end part_number

  pub encode : RequestFile → Result Bytes
  encode file = buffer_of (
      (do
        check (leb (length file.loads) 0xffff) arinc_615a_exception
        number_of_loads ← lift (safe_cast 2 (length file.loads))
        set_from header_size ((2, number_of_loads) ∷ [])
        for_each add_load file.loads
        insert_header file.protocol_version)
        (replicate minimum_size 0))

  abbrev pub read_load : Coder UploadLoad
  read_load = do
    header_filename ← string_decode
    part_number ← string_decode
    pure (record { header_filename = header_filename; part_number = part_number })

  -- `operator=`: the loads are added behind those that the object holds already.
  pub decode : RequestFile → Bytes → Result RequestFile
  decode file raw_data = value_of (
      (do
        check (leb minimum_size (length raw_data)) arinc_615a_exception
        version ← decode_header
        number_of_header_files ← get_int 2
        loads ← repeat read_load number_of_header_files file.loads
        no_more_data
        pure (record { protocol_version = version; loads = loads }))
        raw_data)
