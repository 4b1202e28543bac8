-- ===== src/Files/Download/AnswerFile/RoundTrip.antt =====
-- The answer file is read back, and what the decoder keeps of the object it is given.
use arinc_615a_gui_tool_suit.Base.{◌+◌, ◌^◌, ◌<◌, ◌≡◌, ◌++◌, arith, Bytes, ok, length, All, Writes}
use arinc_615a_gui_tool_suit.RawData.{RawData}
use arinc_615a_gui_tool_suit.Files.ProtocolFile.Header.{IsSupported}
use arinc_615a_gui_tool_suit.Files.Frame.{file_bytes}
use arinc_615a_gui_tool_suit.Files.Counted
use arinc_615a_gui_tool_suit.Files.Text.{string_decode}
use arinc_615a_gui_tool_suit.Files.Text.RoundTrip.{
  IsStored, stored, string_encode-stored, Reads-stored, concat_map-stored_le,
}
use arinc_615a_gui_tool_suit.Files.Download.AnswerFile.{
  AnswerFile, minimum_size, add_file, encode, decode,
}

-- An answer that the format can hold.
pub record IsStorable (file : AnswerFile) : Type 0 where
  pub supported : IsSupported file.protocol_version
  pub names : All IsStored file.files
  pub number : length file.files < 65536

module _ ⦃lib : RawData⦄ where
  Writes-add_file : (file : Bytes) → IsStored file → Writes (add_file file) (stored file) tt
  Writes-add_file file h buffer = rw (string_encode-stored file h)

  -- The format's size field never overflows.
  fits :
      (file : AnswerFile)
      → IsStorable file
      → 6 + length (Counted.payload stored IsStored file.files) < 2 ^ 32
  fits file h = omega (
    arith,
    h.number,
    Counted.length-payload stored IsStored file.files,
    concat_map-stored_le file.files h.names,
  )

  abbrev pub encoding : AnswerFile → Bytes
  encoding file = file_bytes file.protocol_version (Counted.payload stored IsStored file.files)

  pub encode-encoding : (file : AnswerFile) → IsStorable file → encode file ≡ ok (encoding file)
  unfolding encode
  encode-encoding file h =
      Counted.counted_encode stored IsStored add_file Writes-add_file file.protocol_version
        file.files h.names h.number

  pub decode-encoding :
      (file old : AnswerFile)
      → IsStorable file
      → decode old (encoding file) ≡ ok (record file { files = old.files ++ file.files })
  unfolding decode
  decode-encoding file old h =
      Counted.counted_decode stored IsStored minimum_size string_decode
        (λ v list. record { protocol_version = v; files = list }) Reads-stored file.protocol_version
        file.files old.files h.supported h.names h.number
        (omega (arith, Counted.length-payload stored IsStored file.files)) (fits file h)

  -- The encoding of an answer that the format can hold is found, and a decoder that holds no name
  -- yet reads exactly that answer; one that holds names keeps them in front.
  pub decode-encode_answer :
      (file old : AnswerFile)
      → IsStorable file
      → (raw_data : Bytes) × (encode file ≡ ok raw_data)
        × (decode old raw_data ≡ ok (record file { files = old.files ++ file.files }))
  decode-encode_answer file old h =
      (encoding file, encode-encoding file h, decode-encoding file old h)
