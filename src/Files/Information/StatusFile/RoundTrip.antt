-- ===== src/Files/Information/StatusFile/RoundTrip.antt =====
-- The status file of the information operation is read back.
use arinc_615a_gui_tool_suit.Base.{
  ℕ, ◌+◌, ◌≤◌, ◌<◌, ◌≡◌, refl, List, [], ◌∷◌, arith, Bytes, ok, length, le→leb,
}
use arinc_615a_gui_tool_suit.RawData.{RawData}
use arinc_615a_gui_tool_suit.Buffer.{ints_before, ints_bytes-append, length-ints_before}
use arinc_615a_gui_tool_suit.Codes.{to_underlying}
use arinc_615a_gui_tool_suit.Codes.Conversions.{to_underlying-lt, status_code-to_underlying}
use arinc_615a_gui_tool_suit.Status.{IsStoredStatus}
use arinc_615a_gui_tool_suit.Files.ProtocolFile.Header.{IsSupported}
use arinc_615a_gui_tool_suit.Files.Frame.{
  Reads-whole, file_bytes, length-file_bytes, set_first, insert_header_last, decode_header_first,
}
use arinc_615a_gui_tool_suit.Files.Text.{string_decode}
use arinc_615a_gui_tool_suit.Files.Text.RoundTrip.{
  stored, string_encode-stored, Reads-stored, length-stored_le,
}
use arinc_615a_gui_tool_suit.Files.Information.StatusFile.{InformationStatusFile, encode, decode}

pub record IsStorable (file : InformationStatusFile) : Type 0 where
  pub supported : IsSupported file.protocol_version
  pub status : IsStoredStatus file.status

module _ ⦃lib : RawData⦄ where
  open lib use {int_bytes, get_int-int_bytes, length-int_bytes}

  abbrev numbers : InformationStatusFile → List (ℕ × ℕ)
  numbers file =
      (2, file.status.counter)
      ∷ (2, to_underlying file.status.code)
      ∷ (2, file.status.exception_timer)
      ∷ (2, file.status.estimated_time)
      ∷ []

  abbrev payload : InformationStatusFile → Bytes
  payload file = ints_before (numbers file) (stored file.status.description)

  encode-file_bytes :
      (file : InformationStatusFile)
      → IsStorable file
      → encode file ≡ ok (file_bytes file.protocol_version (payload file))
  unfolding encode
  encode-file_bytes file h = rw (set_first (numbers file) 8 refl) (
      rw (string_encode-stored file.status.description h.status.description) (
        rw (ints_bytes-append (numbers file) (stored file.status.description))
          (rw insert_header_last)))

  length-payload :
      (file : InformationStatusFile)
      → IsStorable file
      → (9 ≤ length (payload file)) × (length (payload file) < 300)
  length-payload file h = omega (
    arith,
    length-ints_before (numbers file) (stored file.status.description),
    length-stored_le file.status.description h.status.description,
  )

  decode-file_bytes :
      (file : InformationStatusFile)
      → IsStorable file
      → decode (file_bytes file.protocol_version (payload file)) ≡ ok file
  unfolding decode
  decode-file_bytes file h =
      rw
        (
          length-file_bytes file.protocol_version (payload file),
          le→leb 15 (6 + length (payload file)) (omega (arith, length-payload file h)),
        )
        (rw
          (decode_header_first file.protocol_version (payload file) h.supported
            (omega (arith, length-payload file h)))
          (rw (get_int-int_bytes 2 file.status.counter _ h.status.counter) (
            rw
              (get_int-int_bytes 2 (to_underlying file.status.code) _
                (to_underlying-lt file.status.code))
              (rw (status_code-to_underlying file.status.code h.status.code) (
                rw (get_int-int_bytes 2 file.status.exception_timer _ h.status.exception_timer) (
                  rw (get_int-int_bytes 2 file.status.estimated_time _ h.status.estimated_time) (
                    rw (
                      Reads-whole string_decode (stored file.status.description)
                        file.status.description
                        (Reads-stored file.status.description h.status.description)))))))))

  -- A status that the format can hold is encoded and read back.
  decode-encode_information_status :
      (file : InformationStatusFile)
      → IsStorable file
      → (raw_data : Bytes) × (encode file ≡ ok raw_data) × (decode raw_data ≡ ok file)
  decode-encode_information_status file h = (
    file_bytes file.protocol_version (payload file),
    encode-file_bytes file h,
    decode-file_bytes file h,
  )
