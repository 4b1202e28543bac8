-- ===== src/Files/InitializationFile/RoundTrip.antt =====
-- The initialization file is read back.
use arinc_615a_gui_tool_suit.Base.{
  ◌+◌, ◌≤◌, ◌<◌, ◌≡◌, ◌≢◌, refl, [], ◌∷◌, ◌++◌, arith, Bytes, ok, length, append-nil, le→leb,
  length-append,
}
use arinc_615a_gui_tool_suit.RawData.{RawData}
use arinc_615a_gui_tool_suit.Codes.{acceptance_underlying, deferred}
use arinc_615a_gui_tool_suit.Codes.Conversions.{
  acceptance_underlying-lt, acceptance_code-acceptance_underlying,
}
use arinc_615a_gui_tool_suit.Files.ProtocolFile.Header.{IsSupported}
use arinc_615a_gui_tool_suit.Files.Frame.{
  Reads-whole, file_bytes, length-file_bytes, set_first, insert_header_last, decode_header_first,
}
use arinc_615a_gui_tool_suit.Files.Text.{string_decode}
use arinc_615a_gui_tool_suit.Files.Text.RoundTrip.{
  IsStored, stored, string_encode-stored, Reads-stored, length-stored_le,
}
use arinc_615a_gui_tool_suit.Files.InitializationFile.{InitializationFile, encode, decode}

pub record IsStorable (file : InitializationFile) : Type 0 where
  pub supported : IsSupported file.protocol_version
  pub code : file.response.code ≢ deferred
  pub description : IsStored file.response.description

module _ ⦃lib : RawData⦄ where
  open lib use {int_bytes, get_int-int_bytes, length-int_bytes}

  abbrev payload : InitializationFile → Bytes
  payload file =
      int_bytes 2 (acceptance_underlying file.response.code) ++ stored file.response.description

  length-payload :
      (file : InitializationFile)
      → IsStorable file
      → (3 ≤ length (payload file)) × (length (payload file) < 300)
  length-payload file h = omega (
    arith,
    length-append (int_bytes 2 (acceptance_underlying file.response.code))
        (stored file.response.description),
    length-int_bytes 2 (acceptance_underlying file.response.code),
    length-stored_le file.response.description h.description,
  )

  encode-file_bytes :
      (file : InitializationFile)
      → IsStorable file
      → encode file ≡ ok (file_bytes file.protocol_version (payload file))
  unfolding encode
  encode-file_bytes file h =
      rw (set_first ((2, acceptance_underlying file.response.code) ∷ []) 2 refl) (
        rw (string_encode-stored file.response.description h.description) (
          rw (append-nil (int_bytes 2 (acceptance_underlying file.response.code)))
            (rw insert_header_last)))

  decode-file_bytes :
      (file : InitializationFile)
      → IsStorable file
      → decode (file_bytes file.protocol_version (payload file)) ≡ ok file
  unfolding decode
  decode-file_bytes file h =
      let code = acceptance_underlying file.response.code in
      let bounds = length-payload file h in
      rw
        (
          length-file_bytes file.protocol_version (payload file),
          le→leb 9 (6 + length (payload file)) (omega arith),
        )
        (rw (decode_header_first file.protocol_version (payload file) h.supported (omega arith)) (
          rw (get_int-int_bytes 2 code _ (acceptance_underlying-lt file.response.code)) (
            rw (acceptance_code-acceptance_underlying file.response.code h.code) (
              rw (
                Reads-whole string_decode (stored file.response.description)
                  file.response.description
                  (Reads-stored file.response.description h.description))))))

  -- An initialization file that the format can hold is encoded and read back.
  pub decode-encode_initialization :
      (file : InitializationFile)
      → IsStorable file
      → (raw_data : Bytes) × (encode file ≡ ok raw_data) × (decode raw_data ≡ ok file)
  decode-encode_initialization file h = (
    file_bytes file.protocol_version (payload file),
    encode-file_bytes file h,
    decode-file_bytes file h,
  )
