-- ===== src/Target/Requests/Numbering.antt =====
-- What a target does about the files that it receives sends no status file.
use arinc_615a_gui_tool_suit.Base.{
  ℕ, ◌≡◌, refl, Bool, true, false, inl, inr, Bool-cases, Option, [], ◌∷◌, Bytes, Result, ok, err,
  arinc_615a_exception,
}
use arinc_615a_gui_tool_suit.Files.ProtocolFilename.{FileType, filename_of, same_type}
use arinc_615a_gui_tool_suit.Target.Operation.{
  Operation, StatusFormat, RequestType, actions_of, start,
}
use arinc_615a_gui_tool_suit.Codes.{accepted}
use arinc_615a_gui_tool_suit.Files.InitializationFile
use arinc_615a_gui_tool_suit.RawData.{RawData}
use arinc_615a_gui_tool_suit.Target.Requests.{
  same_version, is_host, is_write, tftp_request, Reception, file_decoded, file_received,
}
use arinc_615a_gui_tool_suit.Target.Transmission.Sent.{status_files}
use arinc_615a_gui_tool_suit.Target.Transmission.Numbering.{Numbers, quiet, finished-Numbers}

module _ {H S : Type 0} (format : StatusFormat S) where
  pub tftp_request-Numbers :
      (same_host : H → H → Bool) (wanted : FileType) (remote : H) (type : RequestType)
      (filename : Bytes) (op : Operation H S)
      → let r = tftp_request same_host wanted remote type filename op in Numbers format op r.0 r.1
  unfolding tftp_request status_files
  tftp_request-Numbers same_host wanted remote type filename op =
      elim (Bool-cases (is_host same_host op.host_address remote)) [
        | inr e ↦ rw e (quiet format op op _ refl refl refl)
        | inl e ↦ elim (Bool-cases (is_write type)) [
          | inr f ↦ rw (e, f) (quiet format op op _ refl refl refl)
          | inl f ↦ elim (Bool-cases (same_type wanted (filename_of filename).type)) [
            | inr g ↦ rw (e, f, g) (quiet format op op _ refl refl refl)
            | inl g ↦ rw (e, f, g) (quiet format op _ _ refl refl refl)
          ]
        ]
      ]

  module _ {F : Type 0} (reception : Reception H S F)
      (no_files : (file : F) → status_files (reception.call file ∷ []) ≡ []) where
    file_decoded-Numbers :
        (result : Result F) (op : Operation H S)
        → let r = file_decoded format reception result op in Numbers format op r.0 (actions_of r.1)
    unfolding file_decoded status_files
    file_decoded-Numbers (ok file) op =
        elim (Bool-cases (same_version (reception.version_of file) op.protocol_version)) [
          | inl e ↦ rw e (quiet format op op _ refl (no_files file) refl)
          | inr e ↦ rw e (finished-Numbers format _ _ op)
        ]
    file_decoded-Numbers (err arinc_615a_exception) op = finished-Numbers format _ _ op
    file_decoded-Numbers (err other) op = quiet format op op [] refl refl refl

    pub file_received-Numbers :
        (done : Bool) (raw_file : Bytes) (op : Operation H S)
        → let r = file_received format reception done raw_file op in
          Numbers format op r.0 (actions_of r.1)
    unfolding file_received
    file_received-Numbers true raw_file op =
        let h =
          file_decoded-Numbers (reception.decode_file raw_file)
            (record op { file_operation = false }) in
        record { version = h.version; files = h.files }
    file_received-Numbers false raw_file op =
        let h = finished-Numbers format _ _ (record op { file_operation = false }) in
        record { version = h.version; files = h.files }

-- So does the start of an operation.
pub start-Numbers :
    {H S : Type 0} ⦃lib : RawData⦄ (format : StatusFormat S) (host : H) (port : Option ℕ)
    (op : Operation H S)
    → Numbers format op (start host port op).0 (actions_of (start host port op).1)
unfolding start status_files
start-Numbers format host port op =
    go
      (InitializationFile.encode (record {
        protocol_version = op.protocol_version;
        response = record { code = accepted; description = [] };
      }))
      refl
  where
    go :
        (result : Result Bytes)
        → InitializationFile.encode (record {
          protocol_version = op.protocol_version;
          response = record { code = accepted; description = [] };
        })
          ≡ result
        → Numbers format op (start host port op).0 (actions_of (start host port op).1)
    go (ok raw_file) e = rw (e, start) (quiet format op _ _ refl refl refl)
    go (err arinc_615a_exception) e = rw (e, start) (quiet format op _ _ refl refl refl)
    go (err other) e = rw (e, start) (quiet format op _ _ refl refl refl)
