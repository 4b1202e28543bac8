-- ===== src/Host/Upload.antt =====
-- The upload operation of a data loader
-- (lib/arinc_615a/host/implementation/UploadOperationImpl.cpp).
use arinc_615a_gui_tool_suit.Base.{
  ℕ, Bool, true, false, none, some, List, [], ◌∷◌, Bytes, if◌then◌else◌, continue, Result, ok, err,
}
use arinc_615a_gui_tool_suit.RawData.{RawData}
use arinc_615a_gui_tool_suit.Status.{UploadStatus}
use arinc_615a_gui_tool_suit.Files.ProtocolFilename.{
  text_of, filename_of, same_type, upload_request, upload_status, upload_initialization,
}
use arinc_615a_gui_tool_suit.Files.Upload.StatusFile
use arinc_615a_gui_tool_suit.Files.Upload.RequestFile.{UploadLoad}
use arinc_615a_gui_tool_suit.Files.Upload.RequestFile
use arinc_615a_gui_tool_suit.Tftp.Client.{TransferStatus, successful}
use arinc_615a_gui_tool_suit.Target.Operation.{RequestType, read, write, file_not_found}
use arinc_615a_gui_tool_suit.Host.Operation.{
  Operation, Action, AbortReason, protocol, answer_error, send_file, call_file_request, do_abort,
  do_terminate, initialise, check_request,
}
use arinc_615a_gui_tool_suit.Host.Status.{StatusSource, status_file_request, status_file_completed}

module _ ⦃lib : RawData⦄ where
  abbrev pub upload_source : StatusSource UploadStatus
  upload_source = record {
    decode_status = λ raw_file. continue (StatusFile.decode raw_file) (λ file. ok file.status);
    overall = λ s. s.status;
    mark = λ op. op;
  }

module _ {H : Type 0} where
  -- `start`
  pub start : Operation → Operation × List (Action H UploadStatus)
  start op = initialise upload_initialization (record op { sent = false })

  -- `abort` and `terminate`
  abbrev pub abort : AbortReason → Operation → Operation × List (Action H UploadStatus)
  abort = do_abort

  abbrev pub terminate : AbortReason → Operation → Operation × List (Action H UploadStatus)
  terminate = do_terminate

  -- `loadListCompleted`
  abbrev pub load_list_completed :
      TransferStatus → Operation → Operation × List (Action H UploadStatus)
  load_list_completed successful op = (record op { file_operation = false; sent = true }, [])
  load_list_completed _ op = abort protocol (record op { file_operation = false })

  module _ ⦃lib : RawData⦄ where
    -- `loadList`: once the list was transmitted, nothing is done.
    unfoldable pub load_list :
        List UploadLoad → Operation → Operation × Result (List (Action H UploadStatus))
    load_list loads op =
        if op.sent
        then (op, ok [])
        else (elim (RequestFile.encode
            (record { protocol_version = op.protocol_version; loads = loads })) [
              | ok raw_file ↦ (
                record op { file_operation = true },
                ok (
                    send_file upload_request
                      (text_of (record { target_id = op.target_id; type = upload_request }))
                      raw_file
                    ∷ []),
              )
              | err e ↦ (op, err e)
            ])

    -- `statusFileCompleted`
    abbrev pub upload_status_completed :
        ℕ → Bool → Bytes → Operation → Operation × Result (List (Action H UploadStatus))
    upload_status_completed = status_file_completed upload_source

  -- `statusFileRequest`
  abbrev pub upload_status_request : H → Operation → Operation × List (Action H UploadStatus)
  upload_status_request = status_file_request

  -- `tftpRequest` behind the check of the request.
  unfoldable pub checked_request :
      H → RequestType → Bytes → Operation → Operation × List (Action H UploadStatus)
  checked_request remote read filename op = (op, call_file_request remote filename ∷ [])
  checked_request remote write filename op =
      if same_type (filename_of filename).type upload_status
      then upload_status_request remote op
      else (op, answer_error remote file_not_found ∷ [])

  -- `tftpRequest`
  unfoldable pub tftp_request :
      H → RequestType → Bytes → Operation → Operation × List (Action H UploadStatus)
  tftp_request remote type filename op =
      elim (check_request {S = UploadStatus} filename remote op) [
        | some actions ↦ (op, actions)
        | none ↦ checked_request remote type filename op
      ]
