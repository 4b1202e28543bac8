-- ===== src/Target/Requests.antt =====
-- The files that a target receives: the request of the host, which is taken or refused, and the end of
-- the transfer. The classes repeat both
-- (lib/arinc_615a/target/implementation/UploadOperationImpl.cpp and the two for downloads).
pub mod Numbering
use arinc_615a_gui_tool_suit.Base.{
  ◌==◌, Bool, true, false, not, Option, none, some, List, [], ◌∷◌, Bytes, if◌then◌else◌, Result, ok,
  err, arinc_615a_exception,
}
use arinc_615a_gui_tool_suit.Codes.{Version, version_code, aborted_by_target_hardware}
use arinc_615a_gui_tool_suit.Files.ProtocolFilename.{FileType, filename_of, same_type}
use arinc_615a_gui_tool_suit.Target.Operation.{
  Operation, Action, StatusFormat, RequestType, read, write, illegal_tftp_operation, file_not_found,
  answer_error, receive_file, sound,
}
use arinc_615a_gui_tool_suit.Target.Transmission.{finished}

unfoldable pub same_version : Version → Version → Bool
same_version v w = version_code v == version_code w

abbrev pub is_host : {H : Type 0} → (H → H → Bool) → Option H → H → Bool
is_host same_host none remote = false
is_host same_host (some host) remote = same_host host remote

abbrev pub is_write : RequestType → Bool
is_write read = false
is_write write = true

-- Files of type `F`: how they are decoded, their version, the call of the handler, and what the
-- status says when the transfer, the version or the format is wrong.
pub record Reception (H S F : Type 0) : Type 0 where
  pub decode_file : Bytes → Result F
  pub version_of : F → Version
  pub call : F → Action H S
  pub transfer_failed : Bytes
  pub version_invalid : Bytes
  pub format_error : Bytes

module _ {H S : Type 0} where
  -- `tftpRequest`, and the start of the reception of the file of type `wanted`. An address that was
  -- never set is no remote's.
  unfoldable pub tftp_request :
      (H → H → Bool)
      → FileType
      → H
      → RequestType
      → Bytes
      → Operation H S
      → Operation H S × List (Action H S)
  tftp_request same_host wanted remote type filename op =
      if not (is_host same_host op.host_address remote)
      then (op, answer_error remote illegal_tftp_operation ∷ [])
      else if not (is_write type)
      then (op, answer_error remote illegal_tftp_operation ∷ [])
      else if not (same_type wanted (filename_of filename).type)
      then (op, answer_error remote file_not_found ∷ [])
      else (record op { file_operation = true }, receive_file wanted ∷ [])

  module _ {F : Type 0} (format : StatusFormat S) (reception : Reception H S F) where
    open reception use {decode_file, version_of, call}

    -- The `try` block behind the decoder, and its handler, which catches the library's exceptions.
    unfoldable pub file_decoded :
        Result F → Operation H S → Operation H S × Result (List (Action H S))
    file_decoded (ok file) op =
        if not (same_version (version_of file) op.protocol_version)
        then sound (finished format aborted_by_target_hardware reception.version_invalid op)
        else (op, ok (call file ∷ []))
    file_decoded (err arinc_615a_exception) op =
        sound (finished format aborted_by_target_hardware reception.format_error op)
    file_decoded (err other) op = (op, err other)

    -- The end of the transfer, which was successful or not and has left these bytes.
    unfoldable pub file_received :
        Bool → Bytes → Operation H S → Operation H S × Result (List (Action H S))
    file_received false raw_file op = sound (
        finished format aborted_by_target_hardware reception.transfer_failed
          (record op { file_operation = false }))
    file_received true raw_file op =
        file_decoded (decode_file raw_file) (record op { file_operation = false })
