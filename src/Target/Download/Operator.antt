-- ===== src/Target/Download/Operator.antt =====
-- The operator defined download of a target
-- (lib/arinc_615a/target/implementation/OperatorDefinedDownloadOperationImpl.cpp).
pub mod Runs
use arinc_615a_gui_tool_suit.Base.{
  ℕ, Bool, true, false, List, [], ◌∷◌, Bytes, codes, Result, ok, err,
}
use arinc_615a_gui_tool_suit.RawData.{RawData}
use arinc_615a_gui_tool_suit.Codes.{
  arinc_615a_34, StatusCode, FinalStatus, aborted_by_target_hardware,
}
use arinc_615a_gui_tool_suit.Status.{DownloadStatus}
use arinc_615a_gui_tool_suit.Files.ProtocolFilename.{
  operator_defined_download_answer, operator_defined_download_list,
}
use arinc_615a_gui_tool_suit.Files.Download.AnswerFile.{AnswerFile}
use arinc_615a_gui_tool_suit.Files.Download.AnswerFile
use arinc_615a_gui_tool_suit.Files.Download.ListFile.{FileInformation}
use arinc_615a_gui_tool_suit.Files.Download.ListFile
use arinc_615a_gui_tool_suit.Tftp.Client.{TransferStatus, successful}
use arinc_615a_gui_tool_suit.Target.Operation.{
  Operation, Action, RequestType, call_downloading_answer, downloading_list_completed,
  protocol_file_operation,
}
use arinc_615a_gui_tool_suit.Target.Transmission.{
  accepted_operation, in_progress, finished, set, status_file, completed_status,
}
use arinc_615a_gui_tool_suit.Target.Requests.{Reception, file_received}
use arinc_615a_gui_tool_suit.Target.Requests
use arinc_615a_gui_tool_suit.Target.Download.{
  download_format, file_accepted, file_in_progress, file_finished, files_finished,
  in_progress_ratio, change_status,
}

module _ {H : Type 0} ⦃lib : RawData⦄ where
  -- `accepted`
  abbrev pub accepted_called :
      Operation H DownloadStatus → Operation H DownloadStatus × List (Action H DownloadStatus)
  accepted_called = accepted_operation download_format

  -- `inProgress` without a ratio
  abbrev pub in_progress_called :
      Bool
      → ℕ
      → Bytes
      → Operation H DownloadStatus
      → Operation H DownloadStatus × List (Action H DownloadStatus)
  in_progress_called = in_progress download_format

  -- `finished`
  abbrev pub finished_called :
      FinalStatus
      → Bytes
      → Operation H DownloadStatus
      → Operation H DownloadStatus × List (Action H DownloadStatus)
  finished_called = finished download_format

  -- `status`
  abbrev pub set_download_status :
      StatusCode → Bytes → ℕ → Operation H DownloadStatus → Operation H DownloadStatus
  set_download_status = set download_format

  -- `statusFile`
  abbrev pub download_status_file :
      Operation H DownloadStatus
      → Operation H DownloadStatus × Result (List (Action H DownloadStatus))
  download_status_file = status_file download_format

  -- `statusFileCompleted`
  abbrev pub status_file_done :
      DownloadStatus
      → TransferStatus
      → Operation H DownloadStatus
      → Operation H DownloadStatus × List (Action H DownloadStatus)
  status_file_done = completed_status download_format

  -- `inProgress` with a ratio
  abbrev pub in_progress_with_ratio :
      Bool
      → ℕ
      → Bytes
      → ℕ
      → Operation H DownloadStatus
      → Operation H DownloadStatus × List (Action H DownloadStatus)
  in_progress_with_ratio = in_progress_ratio

  -- The functions for a single file, and for all
  abbrev pub accept_file : Bytes → Operation H DownloadStatus → Operation H DownloadStatus
  accept_file filename = change_status (file_accepted filename)

  abbrev pub progress_file : Bytes → Bytes → Operation H DownloadStatus → Operation H DownloadStatus
  progress_file filename description = change_status (file_in_progress filename description)

  abbrev pub finish_file :
      Bytes → FinalStatus → Bytes → Operation H DownloadStatus → Operation H DownloadStatus
  finish_file filename final description = change_status (file_finished filename final description)

  abbrev pub finish_files :
      FinalStatus → Bytes → Operation H DownloadStatus → Operation H DownloadStatus
  finish_files final description = change_status (files_finished final description)

  -- `tftpRequest` and the start of the reception
  abbrev pub tftp_request :
      (H → H → Bool)
      → H
      → RequestType
      → Bytes
      → Operation H DownloadStatus
      → Operation H DownloadStatus × List (Action H DownloadStatus)
  tftp_request same_host = Requests.tftp_request same_host operator_defined_download_answer

  -- The handler is called with the files of an answer.
  abbrev pub answer_reception : Reception H DownloadStatus AnswerFile
  answer_reception = record {
    decode_file = AnswerFile.decode (record { protocol_version = arinc_615a_34; files = [] });
    version_of = λ file. file.protocol_version;
    call = λ file. call_downloading_answer file.files;
    transfer_failed = codes "Receive download answer file failed";
    version_invalid = codes "Answer file protocol version invalid";
    format_error = codes "Answer file format error";
  }

  -- `answerFileCompleted`
  abbrev pub file_completed :
      Bool
      → Bytes
      → Operation H DownloadStatus
      → Operation H DownloadStatus × Result (List (Action H DownloadStatus))
  file_completed = file_received download_format answer_reception

  -- `downloadingList`: an exception of the encoder leaves it.
  pub downloading_list :
      List FileInformation
      → Operation H DownloadStatus
      → Operation H DownloadStatus × Result (List (Action H DownloadStatus))
  downloading_list files op =
      elim (ListFile.encode (record { protocol_version = op.protocol_version; files = files })) [
        | ok raw_file ↦ (
          op,
          ok (
              protocol_file_operation operator_defined_download_list downloading_list_completed
                raw_file op
              ∷ []),
        )
        | err e ↦ (op, err e)
      ]

  -- `downloadingListCompleted`
  pub list_transferred :
      TransferStatus
      → Operation H DownloadStatus
      → Operation H DownloadStatus × List (Action H DownloadStatus)
  list_transferred successful op = (op, [])
  list_transferred _ op =
      finished download_format aborted_by_target_hardware
        (codes "Target Information transmission failed") op
