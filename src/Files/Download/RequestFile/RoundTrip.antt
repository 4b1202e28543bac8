-- ===== src/Files/Download/RequestFile/RoundTrip.antt =====
-- The download request file is read back.
use arinc_615a_gui_tool_suit.Base.{
  ◌+◌, ◌^◌, ◌≤◌, ◌<◌, ◌≡◌, refl, [], ◌∷◌, ◌++◌, arith, Bytes, ok, length, append-nil,
  append_assoc_3, le→leb, ==_refl, length-append, concat_map, All, Writes, Writes-for_each,
  Reads-repeat,
}
use arinc_615a_gui_tool_suit.RawData.{RawData}
use arinc_615a_gui_tool_suit.Buffer.{Writes-set_last}
use arinc_615a_gui_tool_suit.Files.ProtocolFile.Header.{IsSupported}
use arinc_615a_gui_tool_suit.Files.Frame.{
  file_bytes, length-file_bytes, set_first, insert_header_last, decode_header_first,
}
use arinc_615a_gui_tool_suit.Files.Text.{string_decode}
use arinc_615a_gui_tool_suit.Files.Text.RoundTrip.{
  IsStored, stored, string_encode-stored, Reads-stored, concat_map-stored_le,
}
use arinc_615a_gui_tool_suit.Files.Download.RequestFile.{
  RequestFile, minimum_size, add_file, encode, decode,
}

pub record IsStorable (file : RequestFile) : Type 0 where
  pub supported : IsSupported file.protocol_version
  pub names : All IsStored file.files
  pub number : length file.files < 65536
  pub user_data : length file.user_defined_data < 256

module _ ⦃lib : RawData⦄ where
  open lib use {int_bytes, get_int-int_bytes, length-int_bytes, safe_cast_lem}

  abbrev payload : RequestFile → Bytes
  payload file =
      int_bytes 2 (length file.files)
      ++ (concat_map stored file.files
          ++ (int_bytes 1 (length file.user_defined_data) ++ file.user_defined_data))

  length-payload :
      (file : RequestFile)
      → IsStorable file
      → (3 ≤ length (payload file)) × (6 + length (payload file) < 2 ^ 32)
  length-payload file h =
      let size : Bytes = int_bytes 1 (length file.user_defined_data) in
      omega (
        arith,
        h.number,
        length-append (int_bytes 2 (length file.files))
            (concat_map stored file.files ++ (size ++ file.user_defined_data)),
        length-append (concat_map stored file.files) (size ++ file.user_defined_data),
        length-append size file.user_defined_data,
        length-int_bytes 2 (length file.files),
        length-int_bytes 1 (length file.user_defined_data),
        concat_map-stored_le file.files h.names,
      )

  Writes-add_file : (file : Bytes) → IsStored file → Writes (add_file file) (stored file) tt
  Writes-add_file file h buffer = rw (string_encode-stored file h)

  encode-file_bytes :
      (file : RequestFile)
      → IsStorable file
      → encode file ≡ ok (file_bytes file.protocol_version (payload file))
  unfolding encode
  encode-file_bytes file h =
      let n = length file.files in
      let m = length file.user_defined_data in
      rw (le→leb n 0xffff (omega (arith, h.number)), safe_cast_lem 2 n h.number)
        (rw (set_first ((2, n) ∷ []) 2 refl) (
          rw (Writes-for_each add_file stored IsStored Writes-add_file file.files h.names) (
            rw (le→leb m 0xff (omega (arith, h.user_data)), safe_cast_lem 1 m h.user_data)
              (rw (Writes-set_last 1 ((1, m) ∷ []) refl) (
                rw (append-nil (int_bytes 2 n), append-nil (int_bytes 1 m))
                  (rw
                    (append_assoc_3 (int_bytes 2 n) (concat_map stored file.files) (int_bytes 1 m)
                      file.user_defined_data)
                    (rw insert_header_last)))))))

  decode-file_bytes :
      (file old : RequestFile)
      → IsStorable file
      → decode old (file_bytes file.protocol_version (payload file))
        ≡ ok (record file { files = old.files ++ file.files })
  unfolding decode
  decode-file_bytes file old h =
      let bounds = length-payload file h in
      rw
        (
          length-file_bytes file.protocol_version (payload file),
          le→leb minimum_size (6 + length (payload file)) (omega arith),
        )
        (rw (decode_header_first file.protocol_version (payload file) h.supported (omega arith)) (
          rw (get_int-int_bytes 2 (length file.files) _ h.number) (
            rw
              (Reads-repeat string_decode stored IsStored Reads-stored file.files old.files h.names)
              (rw (get_int-int_bytes 1 (length file.user_defined_data) _ h.user_data)
                (rw (==_refl (length file.user_defined_data)))))))

  -- A download request that the format can hold is encoded and read back; a decoder that holds names
  -- already keeps them in front.
  pub decode-encode_download_request :
      (file old : RequestFile)
      → IsStorable file
      → (raw_data : Bytes) × (encode file ≡ ok raw_data)
        × (decode old raw_data ≡ ok (record file { files = old.files ++ file.files }))
  decode-encode_download_request file old h = (
    file_bytes file.protocol_version (payload file),
    encode-file_bytes file h,
    decode-file_bytes file old h,
  )
