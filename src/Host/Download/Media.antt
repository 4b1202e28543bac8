-- ===== src/Host/Download/Media.antt =====
-- The media defined download of a data loader
-- (lib/arinc_615a/host/implementation/MediaDefinedDownloadOperationImpl.cpp).
use arinc_615a_gui_tool_suit.Base.{
  true, false, none, some, List, [], ◌∷◌, Bytes, if◌then◌else◌, Result, ok, err,
}
use arinc_615a_gui_tool_suit.RawData.{RawData}
use arinc_615a_gui_tool_suit.Status.{DownloadStatus}
use arinc_615a_gui_tool_suit.Files.ProtocolFilename.{
  text_of, filename_of, same_type, download_status, media_defined_download_request,
  media_defined_download_initialization,
}
use arinc_615a_gui_tool_suit.Files.Download.RequestFile
use arinc_615a_gui_tool_suit.Tftp.Client.{TransferStatus, successful}
use arinc_615a_gui_tool_suit.Target.Operation.{RequestType, read, write, illegal_tftp_operation}
use arinc_615a_gui_tool_suit.Host.Operation.{
  Operation, Action, AbortReason, protocol, answer_error, send_file, call_file_request, do_abort,
  do_terminate, initialise, check_request,
}
use arinc_615a_gui_tool_suit.Host.Download.{download_status_request}

module _ {H : Type 0} where
  -- `start`
  pub start : Operation → Operation × List (Action H DownloadStatus)
  start op = initialise media_defined_download_initialization (record op { sent = false })

  -- `abort` and `terminate`
  abbrev pub abort : AbortReason → Operation → Operation × List (Action H DownloadStatus)
  abort = do_abort

  abbrev pub terminate : AbortReason → Operation → Operation × List (Action H DownloadStatus)
  terminate = do_terminate

  -- `requestCompleted`
  abbrev pub request_completed :
      TransferStatus → Operation → Operation × List (Action H DownloadStatus)
  request_completed successful op = (record op { file_operation = false; sent = true }, [])
  request_completed _ op = abort protocol (record op { file_operation = false })

  module _ ⦃lib : RawData⦄ where
    -- `request`: once the file was transmitted, nothing is done.
    unfoldable pub request_files :
        List Bytes → Bytes → Operation → Operation × Result (List (Action H DownloadStatus))
    request_files files data' op =
        if op.sent
        then (op, ok [])
        else (elim (RequestFile.encode (record {
          protocol_version = op.protocol_version;
          files = files;
          user_defined_data = data';
        })) [
          | ok raw_file ↦ (
            record op { file_operation = true },
            ok (
                send_file media_defined_download_request
                  (text_of
                    (record { target_id = op.target_id; type = media_defined_download_request }))
                  raw_file
                ∷ []),
          )
          | err e ↦ (op, err e)
        ])

  -- `tftpRequest` behind the check of the request.
  unfoldable pub checked_request :
      H → RequestType → Bytes → Operation → Operation × List (Action H DownloadStatus)
  checked_request remote read filename op = (op, answer_error remote illegal_tftp_operation ∷ [])
  checked_request remote write filename op =
      if same_type (filename_of filename).type download_status
      then download_status_request remote op
      else (op, call_file_request remote filename ∷ [])

  -- `tftpRequest`
  unfoldable pub tftp_request :
      H → RequestType → Bytes → Operation → Operation × List (Action H DownloadStatus)
  tftp_request remote type filename op =
      elim (check_request {S = DownloadStatus} filename remote op) [
        | some actions ↦ (op, actions)
        | none ↦ checked_request remote type filename op
      ]
