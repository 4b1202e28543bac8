-- ===== src/Host/Download/Operator.antt =====
-- The operator defined download of a data loader
-- (lib/arinc_615a/host/implementation/OperatorDefinedDownloadOperationImpl.cpp).
use arinc_615a_gui_tool_suit.Base.{
  Bool, true, false, none, some, List, [], ◌∷◌, ◌++◌, Bytes, if◌then◌else◌, Result, ok, err,
  arinc_615a_exception,
}
use arinc_615a_gui_tool_suit.RawData.{RawData}
use arinc_615a_gui_tool_suit.Status.{DownloadStatus}
use arinc_615a_gui_tool_suit.Files.ProtocolFilename.{
  text_of, filename_of, same_type, download_status, operator_defined_download_answer,
  operator_defined_download_initialization, operator_defined_download_list,
}
use arinc_615a_gui_tool_suit.Files.Download.AnswerFile
use arinc_615a_gui_tool_suit.Files.Download.ListFile.{ListFile}
use arinc_615a_gui_tool_suit.Files.Download.ListFile
use arinc_615a_gui_tool_suit.Tftp.Client.{TransferStatus, successful}
use arinc_615a_gui_tool_suit.Target.Operation.{RequestType, read, write, illegal_tftp_operation}
use arinc_615a_gui_tool_suit.Host.Operation.{
  Operation, Action, AbortReason, protocol, answer_error, send_file, call_file_request, do_abort,
  do_terminate, initialise, check_request, receive_list, abort_list, call_downloading_list,
}
use arinc_615a_gui_tool_suit.Host.Download.{download_status_request}

module _ {H : Type 0} where
  -- `start`
  pub start : Operation → Operation × List (Action H DownloadStatus)
  start op = initialise operator_defined_download_initialization (record op { sent = false })

  -- `abort` and `terminate`
  abbrev pub abort : AbortReason → Operation → Operation × List (Action H DownloadStatus)
  abort = do_abort

  abbrev pub terminate : AbortReason → Operation → Operation × List (Action H DownloadStatus)
  terminate = do_terminate

  -- `answerCompleted`
  abbrev pub answer_completed :
      TransferStatus → Operation → Operation × List (Action H DownloadStatus)
  answer_completed successful op = (record op { file_operation = false; sent = true }, [])
  answer_completed _ op = abort protocol (record op { file_operation = false })

  module _ ⦃lib : RawData⦄ where
    -- `answer`: once the file was transmitted, nothing is done.
    unfoldable pub answer :
        List Bytes → Operation → Operation × Result (List (Action H DownloadStatus))
    answer files op =
        if op.sent
        then (op, ok [])
        else (elim (AnswerFile.encode
            (record { protocol_version = op.protocol_version; files = files })) [
              | ok raw_file ↦ (
                record op { file_operation = true },
                ok (
                    send_file operator_defined_download_answer
                      (text_of (record {
                        target_id = op.target_id;
                        type = operator_defined_download_answer;
                      }))
                      raw_file
                    ∷ []),
              )
              | err e ↦ (op, err e)
            ])

    -- The `try` block of `listFileCompleted` behind the decoder, and its handler; the version of the
    -- file is only compared for the log.
    unfoldable pub list_decoded :
        Result ListFile → Operation → Operation × Result (List (Action H DownloadStatus))
    list_decoded (ok file) op = (op, ok (call_downloading_list file.files ∷ []))
    list_decoded (err arinc_615a_exception) op =
        let (next, actions) = abort protocol op in (next, ok actions)
    list_decoded (err other) op = (op, err other)

    -- `listFileCompleted`
    unfoldable pub list_file_completed :
        Bool → Bytes → Operation → Operation × Result (List (Action H DownloadStatus))
    list_file_completed false raw_file op =
        let (next, actions) = abort protocol (record op { list_operation = false }) in
        (next, ok actions)
    list_file_completed true raw_file op =
        list_decoded
          (ListFile.decode (record { protocol_version = op.protocol_version; files = [] }) raw_file)
          (record op { list_operation = false })

  -- `listFileRequest`: a reception that is active is aborted.
  unfoldable pub list_file_request : H → Operation → Operation × List (Action H DownloadStatus)
  list_file_request remote op = (
    record op { list_operation = true },
    (if op.list_operation then abort_list ∷ [] else []) ++ receive_list remote ∷ [],
  )

  -- `tftpRequest` behind the check of the request.
  unfoldable pub checked_request :
      H → RequestType → Bytes → Operation → Operation × List (Action H DownloadStatus)
  checked_request remote read filename op = (op, answer_error remote illegal_tftp_operation ∷ [])
  checked_request remote write filename op =
      if same_type (filename_of filename).type download_status
      then download_status_request remote op
      else if same_type (filename_of filename).type operator_defined_download_list
      then list_file_request remote op
      else (op, call_file_request remote filename ∷ [])

  -- `tftpRequest`
  unfoldable pub tftp_request :
      H → RequestType → Bytes → Operation → Operation × List (Action H DownloadStatus)
  tftp_request remote type filename op =
      elim (check_request {S = DownloadStatus} filename remote op) [
        | some actions ↦ (op, actions)
        | none ↦ checked_request remote type filename op
      ]
