-- ===== src/Files/Information/LoadConfigurationList.antt =====
-- The load configuration list (lib/arinc_615a/files/information/LoadConfigurationListFile.cpp): the
-- target hardware, each with its part numbers.
pub mod RoundTrip
use arinc_615a_gui_tool_suit.Base.{
  ℕ, ◌%◌, ◌^◌, List, [], ◌∷◌, Bytes, leb, Result, arinc_615a_exception, Coder, ◌>>=◌, ◌>>◌, pure,
  lift, check, value_of, buffer_of, length, replicate, for_each, repeat,
}
use arinc_615a_gui_tool_suit.RawData.{RawData}
use arinc_615a_gui_tool_suit.Buffer.{insert_end, extend, set_from, set_last}
use arinc_615a_gui_tool_suit.Codes.{Version}
use arinc_615a_gui_tool_suit.Files.ProtocolFile.{
  header_size, insert_header, decode_header, no_more_data,
}
use arinc_615a_gui_tool_suit.Files.Text.{string_encode, string_decode}

-- `Information::PartNumber`
pub record PartNumber : Type 0 where
  pub part_number : Bytes
  pub amendment : Bytes
  pub part_designation : Bytes

-- `Information::TargetHardware`
pub record TargetHardware : Type 0 where
  pub literal_name : Bytes
  pub serial_number : Bytes
  pub part_numbers : List PartNumber

pub record LoadConfigurationList : Type 0 where
  pub protocol_version : Version
  pub targets_hardware : List TargetHardware

-- What `decode` asks for: more than the encoding of a short list takes.
abbrev pub minimum_size : ℕ
minimum_size = 19

module _ ⦃lib : RawData⦄ where
  open lib use {get_int}

  abbrev pub add_part_number : PartNumber → Coder (Unit {0})
  add_part_number part = do
    part_number ← lift (string_encode part.part_number 0)
    amendment ← lift (string_encode part.amendment 0)
    part_designation ← lift (string_encode part.part_designation 0)
    insert_end part_number
    insert_end amendment
    insert_end part_designation

  abbrev pub add_target : TargetHardware → Coder (Unit {0})
  add_target thw = do
    literal_name ← lift (string_encode thw.literal_name 0)
    serial_number ← lift (string_encode thw.serial_number 0)
    insert_end literal_name
    insert_end serial_number
    extend 2
    check (leb (length thw.part_numbers) 0xffff) arinc_615a_exception
    set_last 2 ((2, length thw.part_numbers % 2 ^ 16) ∷ [])
    for_each add_part_number thw.part_numbers

  pub encode : LoadConfigurationList → Result Bytes
  encode file = buffer_of (
      (do
        check (leb (length file.targets_hardware) 0xffff) arinc_615a_exception
        set_from header_size ((2, length file.targets_hardware % 2 ^ 16) ∷ [])
        for_each add_target file.targets_hardware
        insert_header file.protocol_version)
        (replicate 8 0))

  abbrev pub read_part_number : Coder PartNumber
  read_part_number = do
    part_number ← string_decode
    amendment ← string_decode
    part_designation ← string_decode
    pure (record {
      part_number = part_number;
      amendment = amendment;
      part_designation = part_designation;
    })

  abbrev pub read_target : Coder TargetHardware
  read_target = do
    literal_name ← string_decode
    serial_number ← string_decode
    part_numbers_count ← get_int 2
    part_numbers ← repeat read_part_number part_numbers_count []
    pure (record {
      literal_name = literal_name;
      serial_number = serial_number;
      part_numbers = part_numbers;
    })

  -- `operator=`: the targets are added behind those that the object holds already.
  pub decode : LoadConfigurationList → Bytes → Result LoadConfigurationList
  decode file raw_data = value_of (
      (do
        check (leb minimum_size (length raw_data)) arinc_615a_exception
        version ← decode_header
        count ← get_int 2
        targets ← repeat read_target count file.targets_hardware
        no_more_data
        pure (record { protocol_version = version; targets_hardware = targets }))
        raw_data)
