-- ===== src/Files/Download/ListFile/RoundTrip.antt =====
-- The download list file is read back.
use arinc_615a_gui_tool_suit.Base.{
  ◌<◌, ◌≡◌, ◌++◌, arith, Bytes, ok, length, All, Reads, Writes, append_assoc,
}
use arinc_615a_gui_tool_suit.RawData.{RawData}
use arinc_615a_gui_tool_suit.Files.ProtocolFile.Header.{IsSupported}
use arinc_615a_gui_tool_suit.Files.Frame.{file_bytes}
use arinc_615a_gui_tool_suit.Files.Counted
use arinc_615a_gui_tool_suit.Files.Pairs.{IsStoredPair, pair_bytes, pairs_fit}
use arinc_615a_gui_tool_suit.Files.Text.RoundTrip.{stored, string_encode-stored, Reads-stored}
use arinc_615a_gui_tool_suit.Files.Download.ListFile.{
  FileInformation, ListFile, minimum_size, add_file, read_file, encode, decode,
}

-- An offered file whose strings the format can hold.
abbrev pub IsStoredEntry : FileInformation → Type 0
IsStoredEntry = IsStoredPair FileInformation.filename FileInformation.description

-- A download list file that the format can hold.
pub record IsStorable (file : ListFile) : Type 0 where
  pub supported : IsSupported file.protocol_version
  pub entries : All IsStoredEntry file.files
  pub number : length file.files < 65536

module _ ⦃lib : RawData⦄ where
  abbrev pub entry_bytes : FileInformation → Bytes
  entry_bytes = pair_bytes FileInformation.filename FileInformation.description

  Writes-add_file : (e : FileInformation) → IsStoredEntry e → Writes (add_file e) (entry_bytes e) tt
  Writes-add_file e h buffer =
      rw (string_encode-stored e.filename h.0, string_encode-stored e.description h.1)
        (rw (append_assoc buffer (stored e.filename) (stored e.description)))

  Reads-read_file : (e : FileInformation) → IsStoredEntry e → Reads read_file (entry_bytes e) e
  Reads-read_file e h rest =
      rw (append_assoc (stored e.filename) (stored e.description) rest)
        (rw (Reads-stored e.filename h.0, Reads-stored e.description h.1))

  abbrev pub encoding : ListFile → Bytes
  encoding file =
      file_bytes file.protocol_version (Counted.payload entry_bytes IsStoredEntry file.files)

  pub encode-encoding : (file : ListFile) → IsStorable file → encode file ≡ ok (encoding file)
  unfolding encode
  encode-encoding file h =
      Counted.counted_encode entry_bytes IsStoredEntry add_file Writes-add_file
        file.protocol_version file.files h.entries h.number

  decode-encoding :
      (file old : ListFile)
      → IsStorable file
      → decode old (encoding file) ≡ ok (record file { files = old.files ++ file.files })
  unfolding decode
  decode-encoding file old h =
      Counted.counted_decode entry_bytes IsStoredEntry minimum_size read_file
        (λ v list. record { protocol_version = v; files = list }) Reads-read_file
        file.protocol_version file.files old.files h.supported h.entries h.number
        (omega (arith, Counted.length-payload entry_bytes IsStoredEntry file.files))
        (pairs_fit FileInformation.filename FileInformation.description file.files h.entries
          h.number)

  -- A download list file that the format can hold is encoded, and a decoder that holds no entry yet
  -- reads exactly that file; one that holds entries keeps them in front.
  pub decode-encode_list_file :
      (file old : ListFile)
      → IsStorable file
      → (raw_data : Bytes) × (encode file ≡ ok raw_data)
        × (decode old raw_data ≡ ok (record file { files = old.files ++ file.files }))
  decode-encode_list_file file old h =
      (encoding file, encode-encoding file h, decode-encoding file old h)
