-- ===== src/Files/Upload/RequestFile/RoundTrip.antt =====
-- The upload request file is read back.
use arinc_615a_gui_tool_suit.Base.{
  ◌<◌, ◌≡◌, ◌++◌, arith, Bytes, ok, length, All, Reads, Writes, append_assoc,
}
use arinc_615a_gui_tool_suit.RawData.{RawData}
use arinc_615a_gui_tool_suit.Files.ProtocolFile.Header.{IsSupported}
use arinc_615a_gui_tool_suit.Files.Frame.{file_bytes}
use arinc_615a_gui_tool_suit.Files.Counted
use arinc_615a_gui_tool_suit.Files.Pairs.{IsStoredPair, pair_bytes, pairs_fit}
use arinc_615a_gui_tool_suit.Files.Text.RoundTrip.{stored, string_encode-stored, Reads-stored}
use arinc_615a_gui_tool_suit.Files.Upload.RequestFile.{
  UploadLoad, RequestFile, minimum_size, add_load, read_load, encode, decode,
}

-- A load whose strings the format can hold.
abbrev pub IsStoredEntry : UploadLoad → Type 0
IsStoredEntry = IsStoredPair UploadLoad.header_filename UploadLoad.part_number

-- A upload request file that the format can hold.
pub record IsStorable (file : RequestFile) : Type 0 where
  pub supported : IsSupported file.protocol_version
  pub entries : All IsStoredEntry file.loads
  pub number : length file.loads < 65536

module _ ⦃lib : RawData⦄ where
  abbrev pub entry_bytes : UploadLoad → Bytes
  entry_bytes = pair_bytes UploadLoad.header_filename UploadLoad.part_number

  Writes-add_load : (e : UploadLoad) → IsStoredEntry e → Writes (add_load e) (entry_bytes e) tt
  Writes-add_load e h buffer =
      rw (string_encode-stored e.header_filename h.0, string_encode-stored e.part_number h.1)
        (rw (append_assoc buffer (stored e.header_filename) (stored e.part_number)))

  Reads-read_load : (e : UploadLoad) → IsStoredEntry e → Reads read_load (entry_bytes e) e
  Reads-read_load e h rest =
      rw (append_assoc (stored e.header_filename) (stored e.part_number) rest)
        (rw (Reads-stored e.header_filename h.0, Reads-stored e.part_number h.1))

  abbrev pub encoding : RequestFile → Bytes
  encoding file =
      file_bytes file.protocol_version (Counted.payload entry_bytes IsStoredEntry file.loads)

  pub encode-encoding : (file : RequestFile) → IsStorable file → encode file ≡ ok (encoding file)
  unfolding encode
  encode-encoding file h =
      Counted.counted_encode entry_bytes IsStoredEntry add_load Writes-add_load
        file.protocol_version file.loads h.entries h.number

  decode-encoding :
      (file old : RequestFile)
      → IsStorable file
      → decode old (encoding file) ≡ ok (record file { loads = old.loads ++ file.loads })
  unfolding decode
  decode-encoding file old h =
      Counted.counted_decode entry_bytes IsStoredEntry minimum_size read_load
        (λ v list. record { protocol_version = v; loads = list }) Reads-read_load
        file.protocol_version file.loads old.loads h.supported h.entries h.number
        (omega (arith, Counted.length-payload entry_bytes IsStoredEntry file.loads))
        (pairs_fit UploadLoad.header_filename UploadLoad.part_number file.loads h.entries h.number)

  -- A upload request file that the format can hold is encoded, and a decoder that holds no entry yet
  -- reads exactly that file; one that holds entries keeps them in front.
  pub decode-encode_upload_request :
      (file old : RequestFile)
      → IsStorable file
      → (raw_data : Bytes) × (encode file ≡ ok raw_data)
        × (decode old raw_data ≡ ok (record file { loads = old.loads ++ file.loads }))
  decode-encode_upload_request file old h =
      (encoding file, encode-encoding file h, decode-encoding file old h)
