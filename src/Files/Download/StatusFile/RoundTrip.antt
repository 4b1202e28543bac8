-- ===== src/Files/Download/StatusFile/RoundTrip.antt =====
-- The download status file is read back.
use arinc_615a_gui_tool_suit.Base.{
  ◌+◌, ◌*◌, ◌≤◌, ◌<◌, ◌≡◌, refl, ap, List, [], ◌∷◌, ◌++◌, arith, Bytes, ok, length, append_assoc,
  append-nil, le→leb, length-append, concat_map, All, Reads, Writes, Writes-for_each,
  append_assoc_3,
}
use arinc_615a_gui_tool_suit.RawData.{RawData}
use arinc_615a_gui_tool_suit.Buffer.{Writes-set_last}
use arinc_615a_gui_tool_suit.Codes.{to_underlying}
use arinc_615a_gui_tool_suit.Codes.Conversions.{
  IsTransmitted, to_underlying-lt, status_code-to_underlying,
}
use arinc_615a_gui_tool_suit.Status.{FileStatus, IsStoredStatus}
use arinc_615a_gui_tool_suit.Files.ProtocolFile.Header.{IsSupported}
use arinc_615a_gui_tool_suit.Files.Frame.{
  repeat_whole, file_bytes, length-file_bytes, set_first, insert_header_last, decode_header_first,
}
use arinc_615a_gui_tool_suit.Files.StatusPayload.{
  timing, payload, payload_pieces, length-payload_le,
}
use arinc_615a_gui_tool_suit.Files.Ratio.RoundTrip.{Reads-ratio_decode}
use arinc_615a_gui_tool_suit.Files.Text.RoundTrip.{
  IsStored, stored, string_encode-stored, Reads-stored, length-stored_le,
}
use arinc_615a_gui_tool_suit.Files.Download.StatusFile.{
  DownloadStatusFile, add_file, read_file, encode, decode,
}

pub record IsStoredFile (e : FileStatus) : Type 0 where
  pub filename : IsStored e.filename
  pub code : IsTransmitted e.code
  pub description : IsStored e.description

pub record IsStorable (file : DownloadStatusFile) : Type 0 where
  pub supported : IsSupported file.protocol_version
  pub status : IsStoredStatus file.status.status
  pub list_ratio : file.status.list_ratio ≤ 100
  pub files : All IsStoredFile file.status.files
  pub number : length file.status.files < 65536

module _ ⦃lib : RawData⦄ where
  open lib use {int_bytes, get_int-int_bytes, length-int_bytes, safe_cast_lem}

  abbrev entry_bytes : FileStatus → Bytes
  entry_bytes e = stored e.filename ++ (int_bytes 2 (to_underlying e.code) ++ stored e.description)

  Writes-add_file : (e : FileStatus) → IsStoredFile e → Writes (add_file e) (entry_bytes e) tt
  Writes-add_file e h buffer = rw (string_encode-stored e.filename h.filename) (
      rw (Writes-set_last 2 ((2, to_underlying e.code) ∷ []) refl) (
        rw (string_encode-stored e.description h.description) (
          rw (append-nil (int_bytes 2 (to_underlying e.code))) (
            ap (λ bytes. ok (bytes, tt))
              (append_assoc_3 buffer (stored e.filename) (int_bytes 2 (to_underlying e.code))
                (stored e.description))))))

  Reads-read_file : (e : FileStatus) → IsStoredFile e → Reads read_file (entry_bytes e) e
  Reads-read_file e h rest =
      rw (append_assoc (stored e.filename) _ rest, Reads-stored e.filename h.filename)
        (rw (append_assoc (int_bytes 2 (to_underlying e.code)) _ rest) (
          rw (get_int-int_bytes 2 (to_underlying e.code) _ (to_underlying-lt e.code)) (
            rw (Reads-stored e.description h.description)
              (rw (status_code-to_underlying e.code h.code)))))

  length-files_le :
      (files : List FileStatus)
      → All IsStoredFile files
      → length (concat_map entry_bytes files) ≤ length files * 512
  length-files_le [] h = omega arith
  length-files_le (e ∷ files) h =
      let code : Bytes = int_bytes 2 (to_underlying e.code) in
      omega (
        arith,
        length-append (entry_bytes e) (concat_map entry_bytes files),
        length-append (stored e.filename) (code ++ stored e.description),
        length-append code (stored e.description),
        length-int_bytes 2 (to_underlying e.code),
        length-stored_le e.filename h.0.filename,
        length-stored_le e.description h.0.description,
        length-files_le files h.1,
      )

  abbrev encoding : DownloadStatusFile → Bytes
  encoding file =
      file_bytes file.protocol_version
        (payload entry_bytes file.status.status file.status.list_ratio file.status.files)

  encode-encoding : (file : DownloadStatusFile) → IsStorable file → encode file ≡ ok (encoding file)
  unfolding encode
  encode-encoding file h =
      let n = length file.status.files in
      let s = file.status.status in
      rw (set_first ((2, to_underlying s.code) ∷ []) 2 refl) (
        rw (string_encode-stored s.description h.status.description) (
          rw (Writes-set_last 6 (timing s) refl) (
            rw (le→leb n 0xffff (omega (arith, h.number)), safe_cast_lem 2 n h.number)
              (rw (Writes-set_last 2 ((2, n) ∷ []) refl) (
                rw
                  (Writes-for_each add_file entry_bytes IsStoredFile Writes-add_file
                    file.status.files h.files)
                  (rw (payload_pieces entry_bytes s file.status.list_ratio file.status.files)
                    (rw insert_header_last)))))))

  decode-encoding : (file : DownloadStatusFile) → IsStorable file → decode (encoding file) ≡ ok file
  unfolding decode
  decode-encoding file h =
      let s = file.status.status in
      let whole : Bytes = payload entry_bytes s file.status.list_ratio file.status.files in
      let bounds =
        length-payload_le entry_bytes s file.status.list_ratio file.status.files
          (length file.status.files * 512) h.status h.list_ratio
          (length-files_le file.status.files h.files) in
      rw (length-file_bytes file.protocol_version whole, le→leb 15 (6 + length whole) (omega arith))
        (rw (decode_header_first file.protocol_version whole h.supported (omega (arith, h.number)))
          (rw (get_int-int_bytes 2 (to_underlying s.code) _ (to_underlying-lt s.code)) (
            rw (status_code-to_underlying s.code h.status.code) (
              rw (Reads-stored s.description h.status.description) (
                rw (get_int-int_bytes 2 s.counter _ h.status.counter) (
                  rw (get_int-int_bytes 2 s.exception_timer _ h.status.exception_timer) (
                    rw (get_int-int_bytes 2 s.estimated_time _ h.status.estimated_time) (
                      rw (Reads-ratio_decode file.status.list_ratio h.list_ratio) (
                        rw (get_int-int_bytes 2 (length file.status.files) _ h.number) (
                          rw (
                            repeat_whole read_file entry_bytes IsStoredFile Reads-read_file
                              file.status.files [] h.files)))))))))))

  -- A download status that the format can hold is encoded and read back.
  pub decode-encode_download_status :
      (file : DownloadStatusFile)
      → IsStorable file
      → (raw_data : Bytes) × (encode file ≡ ok raw_data) × (decode raw_data ≡ ok file)
  decode-encode_download_status file h =
      (encoding file, encode-encoding file h, decode-encoding file h)
