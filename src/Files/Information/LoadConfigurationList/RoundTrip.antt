-- ===== src/Files/Information/LoadConfigurationList/RoundTrip.antt =====
-- The load configuration list is read back, unless it is too short.
use arinc_615a_gui_tool_suit.Base.{
  ◌+◌, ◌^◌, ◌%◌, ◌≤◌, ◌<◌, ◌≡◌, false, [], ◌∷◌, ◌++◌, arith, Bytes, leb, ok, err,
  arinc_615a_exception, length, concat_map, All, Reads, Writes, Writes-for_each, Reads-repeat,
  append_assoc, append-nil, le→leb, refl, ap, append_assoc_3, append_assoc_4, err,
}
use arinc_615a_gui_tool_suit.RawData.{RawData}
use arinc_615a_gui_tool_suit.Buffer.{Writes-set_last}
use arinc_615a_gui_tool_suit.Files.ProtocolFile.Header.{IsSupported}
use arinc_615a_gui_tool_suit.Files.Frame.{
  repeat_whole, file_bytes, length-file_bytes, set_first, insert_header_last, decode_header_first,
}
use arinc_615a_gui_tool_suit.Files.Text.RoundTrip.{
  IsStored, stored, string_encode-stored, Reads-stored,
}
use arinc_615a_gui_tool_suit.Files.Information.LoadConfigurationList.{
  PartNumber, TargetHardware, LoadConfigurationList, minimum_size, add_part_number, add_target,
  read_part_number, read_target, encode, decode,
}

abbrev pub IsStoredPart : PartNumber → Type 0
IsStoredPart part =
    IsStored part.part_number × IsStored part.amendment × IsStored part.part_designation

pub record IsStoredTarget (thw : TargetHardware) : Type 0 where
  pub literal_name : IsStored thw.literal_name
  pub serial_number : IsStored thw.serial_number
  pub part_numbers : All IsStoredPart thw.part_numbers
  pub number : length thw.part_numbers < 65536

-- A list that the encoder accepts and writes in full.
pub record IsStorable (file : LoadConfigurationList) : Type 0 where
  pub supported : IsSupported file.protocol_version
  pub targets : All IsStoredTarget file.targets_hardware
  pub number : length file.targets_hardware < 65536

module _ ⦃lib : RawData⦄ where
  open lib use {int_bytes, get_int-int_bytes}

  abbrev part_bytes : PartNumber → Bytes
  part_bytes part =
      stored part.part_number ++ (stored part.amendment ++ stored part.part_designation)

  abbrev target_bytes : TargetHardware → Bytes
  target_bytes thw =
      stored thw.literal_name
      ++ (stored thw.serial_number
          ++ (int_bytes 2 (length thw.part_numbers) ++ concat_map part_bytes thw.part_numbers))

  abbrev pub payload : LoadConfigurationList → Bytes
  payload file =
      int_bytes 2 (length file.targets_hardware) ++ concat_map target_bytes file.targets_hardware

  Writes-add_part_number :
      (part : PartNumber) → IsStoredPart part → Writes (add_part_number part) (part_bytes part) tt
  Writes-add_part_number part h buffer =
      rw (string_encode-stored part.part_number h.0, string_encode-stored part.amendment h.1)
        (rw (string_encode-stored part.part_designation h.2) (
          ap (λ bytes. ok (bytes, tt))
            (append_assoc_3 buffer (stored part.part_number) (stored part.amendment)
              (stored part.part_designation))))

  Reads-read_part_number :
      (part : PartNumber) → IsStoredPart part → Reads read_part_number (part_bytes part) part
  Reads-read_part_number part h rest =
      rw (append_assoc (stored part.part_number) _ rest, Reads-stored part.part_number h.0)
        (rw (append_assoc (stored part.amendment) _ rest, Reads-stored part.amendment h.1)
          (rw (Reads-stored part.part_designation h.2)))

  Writes-add_target :
      (thw : TargetHardware) → IsStoredTarget thw → Writes (add_target thw) (target_bytes thw) tt
  Writes-add_target thw h buffer =
      let count : length thw.part_numbers % 2 ^ 16 ≡ length thw.part_numbers =
        omega (arith, h.number) in
      rw (string_encode-stored thw.literal_name h.literal_name) (
        rw (string_encode-stored thw.serial_number h.serial_number) (
          rw (le→leb (length thw.part_numbers) 0xffff (omega (arith, h.number)), count)
            (rw (Writes-set_last 2 ((2, length thw.part_numbers) ∷ []) refl) (
              rw
                (Writes-for_each add_part_number part_bytes IsStoredPart Writes-add_part_number
                  thw.part_numbers h.part_numbers)
                (rw (append-nil (int_bytes 2 (length thw.part_numbers))) (
                  ap (λ bytes. ok (bytes, tt))
                    (append_assoc_4 buffer (stored thw.literal_name) (stored thw.serial_number)
                      (int_bytes 2 (length thw.part_numbers))
                      (concat_map part_bytes thw.part_numbers))))))))

  Reads-read_target :
      (thw : TargetHardware) → IsStoredTarget thw → Reads read_target (target_bytes thw) thw
  Reads-read_target thw h rest =
      rw
        (
          append_assoc (stored thw.literal_name) _ rest,
          Reads-stored thw.literal_name h.literal_name,
        )
        (rw
          (
            append_assoc (stored thw.serial_number) _ rest,
            Reads-stored thw.serial_number h.serial_number,
          )
          (rw (append_assoc (int_bytes 2 (length thw.part_numbers)) _ rest) (
            rw (get_int-int_bytes 2 (length thw.part_numbers) _ h.number) (
              rw (
                Reads-repeat read_part_number part_bytes IsStoredPart Reads-read_part_number
                  thw.part_numbers [] h.part_numbers)))))

  pub encode-file_bytes :
      (file : LoadConfigurationList)
      → IsStorable file
      → encode file ≡ ok (file_bytes file.protocol_version (payload file))
  unfolding encode
  encode-file_bytes file h =
      let n = length file.targets_hardware in
      let count : n % 2 ^ 16 ≡ n = omega (arith, h.number) in
      rw (le→leb n 0xffff (omega (arith, h.number)), count)
        (rw (set_first ((2, n) ∷ []) 2 refl) (
          rw
            (Writes-for_each add_target target_bytes IsStoredTarget Writes-add_target
              file.targets_hardware h.targets)
            (rw (
              append-nil (int_bytes 2 n),
              insert_header_last file.protocol_version (payload file),
            ))))

  decode-file_bytes :
      (file old : LoadConfigurationList)
      → IsStorable file
      → 13 ≤ length (payload file)
      → 6 + length (payload file) < 2 ^ 32
      → decode old (file_bytes file.protocol_version (payload file))
        ≡ ok (record file { targets_hardware = old.targets_hardware ++ file.targets_hardware })
  unfolding decode
  decode-file_bytes file old h long fits =
      rw
        (
          length-file_bytes file.protocol_version (payload file),
          le→leb minimum_size (6 + length (payload file)) (omega arith),
        )
        (rw (decode_header_first file.protocol_version (payload file) h.supported fits) (
          rw (get_int-int_bytes 2 (length file.targets_hardware) _ h.number) (
            rw (
              repeat_whole read_target target_bytes IsStoredTarget Reads-read_target
                file.targets_hardware old.targets_hardware h.targets))))

  -- A list whose encoding takes 19 bytes or more, and fits the size field, is encoded and read back;
  -- a decoder that holds targets already keeps them in front.
  pub decode-encode_load_configuration :
      (file old : LoadConfigurationList)
      → IsStorable file
      → 19 ≤ 6 + length (payload file)
      → 6 + length (payload file) < 2 ^ 32
      → (raw_data : Bytes) × (encode file ≡ ok raw_data)
        × (decode old raw_data
            ≡ ok (record file { targets_hardware = old.targets_hardware ++ file.targets_hardware }))
  decode-encode_load_configuration file old h long fits = (
    file_bytes file.protocol_version (payload file),
    encode-file_bytes file h,
    decode-file_bytes file old h (omega arith) fits,
  )

  -- A list whose encoding takes less than 19 bytes is encoded, and its encoding is refused by every
  -- decoder.
  pub decode-encode_short_list :
      (file old : LoadConfigurationList)
      → IsStorable file
      → 6 + length (payload file) < 19
      → (raw_data : Bytes) × (encode file ≡ ok raw_data)
        × (decode old raw_data ≡ err arinc_615a_exception)
  unfolding decode
  decode-encode_short_list file old h short =
      let raw_data : Bytes = file_bytes file.protocol_version (payload file) in
      let small : leb minimum_size (length raw_data) ≡ false =
        ground (arith, length-file_bytes file.protocol_version (payload file)) in
      (raw_data, encode-file_bytes file h, rw small)
