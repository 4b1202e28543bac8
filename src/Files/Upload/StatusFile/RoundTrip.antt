-- ===== src/Files/Upload/StatusFile/RoundTrip.antt =====
-- The upload status file is read back.
use arinc_615a_gui_tool_suit.Base.{
  ◌+◌, ◌*◌, ◌≤◌, ◌<◌, ◌≡◌, refl, ap, List, [], ◌∷◌, ◌++◌, arith, Bytes, ok, length, append_assoc,
  append-nil, le→leb, length-append, concat_map, All, Reads, Writes, Writes-for_each,
  append_assoc_5,
}
use arinc_615a_gui_tool_suit.RawData.{RawData}
use arinc_615a_gui_tool_suit.Buffer.{Writes-set_last}
use arinc_615a_gui_tool_suit.Codes.{to_underlying}
use arinc_615a_gui_tool_suit.Codes.Conversions.{
  IsTransmitted, to_underlying-lt, status_code-to_underlying,
}
use arinc_615a_gui_tool_suit.Status.{LoadStatus, IsStoredStatus}
use arinc_615a_gui_tool_suit.Files.ProtocolFile.Header.{IsSupported}
use arinc_615a_gui_tool_suit.Files.Frame.{
  repeat_whole, file_bytes, length-file_bytes, set_first, insert_header_last, decode_header_first,
}
use arinc_615a_gui_tool_suit.Files.StatusPayload.{
  timing, payload, payload_pieces, length-payload_le,
}
use arinc_615a_gui_tool_suit.Files.Ratio.{ratio_encode}
use arinc_615a_gui_tool_suit.Files.Ratio.RoundTrip.{Reads-ratio_decode, ratio_encode_lem}
use arinc_615a_gui_tool_suit.Files.Text.RoundTrip.{
  IsStored, stored, string_encode-stored, Reads-stored, length-stored_le,
}
use arinc_615a_gui_tool_suit.Files.Upload.StatusFile.{
  UploadStatusFile, add_load, read_load, encode, decode,
}

pub record IsStoredLoad (load : LoadStatus) : Type 0 where
  pub header_filename : IsStored load.header_filename
  pub part_number : IsStored load.part_number
  pub ratio : load.ratio ≤ 100
  pub code : IsTransmitted load.code
  pub description : IsStored load.description

pub record IsStorable (file : UploadStatusFile) : Type 0 where
  pub supported : IsSupported file.protocol_version
  pub status : IsStoredStatus file.status.status
  pub list_ratio : file.status.list_ratio ≤ 100
  pub loads : All IsStoredLoad file.status.loads
  pub number : length file.status.loads < 65536

module _ ⦃lib : RawData⦄ where
  open lib use {int_bytes, get_int-int_bytes, length-int_bytes, safe_cast_lem}

  abbrev load_bytes : LoadStatus → Bytes
  load_bytes load =
      stored load.header_filename
      ++ (stored load.part_number
          ++ (ratio_encode load.ratio
              ++ (int_bytes 2 (to_underlying load.code) ++ stored load.description)))

  Writes-add_load :
      (load : LoadStatus) → IsStoredLoad load → Writes (add_load load) (load_bytes load) tt
  Writes-add_load load h buffer = rw (string_encode-stored load.header_filename h.header_filename) (
      rw (string_encode-stored load.part_number h.part_number) (
        rw (Writes-set_last 2 ((2, to_underlying load.code) ∷ []) refl) (
          rw (string_encode-stored load.description h.description) (
            rw (append-nil (int_bytes 2 (to_underlying load.code))) (
              ap (λ bytes. ok (bytes, tt))
                (append_assoc_5 buffer (stored load.header_filename) (stored load.part_number)
                  (ratio_encode load.ratio) (int_bytes 2 (to_underlying load.code))
                  (stored load.description)))))))

  Reads-read_load : (load : LoadStatus) → IsStoredLoad load → Reads read_load (load_bytes load) load
  Reads-read_load load h rest = rw (append_assoc (stored load.header_filename) _ rest) (
      rw (Reads-stored load.header_filename h.header_filename) (
        rw (append_assoc (stored load.part_number) _ rest) (
          rw (Reads-stored load.part_number h.part_number) (
            rw
              (append_assoc (ratio_encode load.ratio) _ rest, Reads-ratio_decode load.ratio h.ratio)
              (rw (append_assoc (int_bytes 2 (to_underlying load.code)) _ rest) (
                rw (get_int-int_bytes 2 (to_underlying load.code) _ (to_underlying-lt load.code)) (
                  rw (Reads-stored load.description h.description)
                    (rw (status_code-to_underlying load.code h.code)))))))))

  length-loads_le :
      (loads : List LoadStatus)
      → All IsStoredLoad loads
      → length (concat_map load_bytes loads) ≤ length loads * 770
  length-loads_le [] h = omega arith
  length-loads_le (load ∷ loads) h =
      let code : Bytes = int_bytes 2 (to_underlying load.code) in
      let tail : Bytes = ratio_encode load.ratio ++ (code ++ stored load.description) in
      omega (
        arith,
        length-append (load_bytes load) (concat_map load_bytes loads),
        length-append (stored load.header_filename) (stored load.part_number ++ tail),
        length-append (stored load.part_number) tail,
        length-append (ratio_encode load.ratio) (code ++ stored load.description),
        length-append code (stored load.description),
        length-int_bytes 2 (to_underlying load.code),
        length-stored_le load.header_filename h.0.header_filename,
        length-stored_le load.part_number h.0.part_number,
        length-stored_le load.description h.0.description,
        ratio_encode_lem load.ratio h.0.ratio,
        length-loads_le loads h.1,
      )

  abbrev encoding : UploadStatusFile → Bytes
  encoding file =
      file_bytes file.protocol_version
        (payload load_bytes file.status.status file.status.list_ratio file.status.loads)

  encode-encoding : (file : UploadStatusFile) → IsStorable file → encode file ≡ ok (encoding file)
  unfolding encode
  encode-encoding file h =
      let n = length file.status.loads in
      let s = file.status.status in
      rw (set_first ((2, to_underlying s.code) ∷ []) 2 refl) (
        rw (string_encode-stored s.description h.status.description) (
          rw (Writes-set_last 6 (timing s) refl) (
            rw (le→leb n 0xffff (omega (arith, h.number)), safe_cast_lem 2 n h.number)
              (rw (Writes-set_last 2 ((2, n) ∷ []) refl) (
                rw
                  (Writes-for_each add_load load_bytes IsStoredLoad Writes-add_load
                    file.status.loads h.loads)
                  (rw (payload_pieces load_bytes s file.status.list_ratio file.status.loads)
                    (rw insert_header_last)))))))

  decode-encoding : (file : UploadStatusFile) → IsStorable file → decode (encoding file) ≡ ok file
  unfolding decode
  decode-encoding file h =
      let s = file.status.status in
      let whole : Bytes = payload load_bytes s file.status.list_ratio file.status.loads in
      let bounds =
        length-payload_le load_bytes s file.status.list_ratio file.status.loads
          (length file.status.loads * 770) h.status h.list_ratio
          (length-loads_le file.status.loads h.loads) in
      rw (length-file_bytes file.protocol_version whole, le→leb 15 (6 + length whole) (omega arith))
        (rw (decode_header_first file.protocol_version whole h.supported (omega (arith, h.number)))
          (rw (get_int-int_bytes 2 (to_underlying s.code) _ (to_underlying-lt s.code)) (
            rw (status_code-to_underlying s.code h.status.code) (
              rw (Reads-stored s.description h.status.description) (
                rw (get_int-int_bytes 2 s.counter _ h.status.counter) (
                  rw (get_int-int_bytes 2 s.exception_timer _ h.status.exception_timer) (
                    rw (get_int-int_bytes 2 s.estimated_time _ h.status.estimated_time) (
                      rw (Reads-ratio_decode file.status.list_ratio h.list_ratio) (
                        rw (get_int-int_bytes 2 (length file.status.loads) _ h.number) (
                          rw (
                            repeat_whole read_load load_bytes IsStoredLoad Reads-read_load
                              file.status.loads [] h.loads)))))))))))

  -- An upload status that the format can hold is encoded and read back.
  pub decode-encode_upload_status :
      (file : UploadStatusFile)
      → IsStorable file
      → (raw_data : Bytes) × (encode file ≡ ok raw_data) × (decode raw_data ≡ ok file)
  decode-encode_upload_status file h =
      (encoding file, encode-encoding file h, decode-encoding file h)
