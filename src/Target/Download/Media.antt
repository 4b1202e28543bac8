-- ===== src/Target/Download/Media.antt =====
-- The media defined download of a target
-- (lib/arinc_615a/target/implementation/MediaDefinedDownloadOperationImpl.cpp).
pub mod Runs
use arinc_615a_gui_tool_suit.Base.{
  ℕ, Bool, true, false, List, [], ◌∷◌, Bytes, codes, Result, ok, err,
}
use arinc_615a_gui_tool_suit.RawData.{RawData}
use arinc_615a_gui_tool_suit.Codes.{
  arinc_615a_34, StatusCode, FinalStatus, aborted_by_target_hardware,
}
use arinc_615a_gui_tool_suit.Status.{DownloadStatus}
use arinc_615a_gui_tool_suit.Files.ProtocolFilename.{media_defined_download_request}
use arinc_615a_gui_tool_suit.Files.Download.RequestFile.{RequestFile}
use arinc_615a_gui_tool_suit.Files.Download.RequestFile
use arinc_615a_gui_tool_suit.Tftp.Client.{TransferStatus, successful}
use arinc_615a_gui_tool_suit.Target.Operation.{
  Operation, Action, RequestType, call_downloading_request, downloading_list_completed,
  protocol_file_operation,
}
use arinc_615a_gui_tool_suit.Target.Transmission.{
  accepted_operation, in_progress, finished, set, status_file, completed_status,
}
use arinc_615a_gui_tool_suit.Target.Requests.{Reception, file_received}
use arinc_615a_gui_tool_suit.Target.Requests
use arinc_615a_gui_tool_suit.Target.Download.{
  download_format, file_accepted, file_in_progress, file_finished, files_finished,
  in_progress_ratio, change_status,
}

module _ {H : Type 0} ⦃lib : RawData⦄ where
  -- `accepted`
  abbrev pub accepted_called :
      Operation H DownloadStatus → Operation H DownloadStatus × List (Action H DownloadStatus)
  accepted_called = accepted_operation download_format

  -- `inProgress` without a ratio
  abbrev pub in_progress_called :
      Bool
      → ℕ
      → Bytes
      → Operation H DownloadStatus
      → Operation H DownloadStatus × List (Action H DownloadStatus)
  in_progress_called = in_progress download_format

  -- `finished`
  abbrev pub finished_called :
      FinalStatus
      → Bytes
      → Operation H DownloadStatus
      → Operation H DownloadStatus × List (Action H DownloadStatus)
  finished_called = finished download_format

  -- `status`
  abbrev pub set_download_status :
      StatusCode → Bytes → ℕ → Operation H DownloadStatus → Operation H DownloadStatus
  set_download_status = set download_format

  -- `statusFile`
  abbrev pub download_status_file :
      Operation H DownloadStatus
      → Operation H DownloadStatus × Result (List (Action H DownloadStatus))
  download_status_file = status_file download_format

  -- `statusFileCompleted`
  abbrev pub status_file_done :
      DownloadStatus
      → TransferStatus
      → Operation H DownloadStatus
      → Operation H DownloadStatus × List (Action H DownloadStatus)
  status_file_done = completed_status download_format

  -- `inProgress` with a ratio
  abbrev pub in_progress_with_ratio :
      Bool
      → ℕ
      → Bytes
      → ℕ
      → Operation H DownloadStatus
      → Operation H DownloadStatus × List (Action H DownloadStatus)
  in_progress_with_ratio = in_progress_ratio

  -- The functions for a single file, and for all
  abbrev pub accept_file : Bytes → Operation H DownloadStatus → Operation H DownloadStatus
  accept_file filename = change_status (file_accepted filename)

  abbrev pub progress_file : Bytes → Bytes → Operation H DownloadStatus → Operation H DownloadStatus
  progress_file filename description = change_status (file_in_progress filename description)

  abbrev pub finish_file :
      Bytes → FinalStatus → Bytes → Operation H DownloadStatus → Operation H DownloadStatus
  finish_file filename final description = change_status (file_finished filename final description)

  abbrev pub finish_files :
      FinalStatus → Bytes → Operation H DownloadStatus → Operation H DownloadStatus
  finish_files final description = change_status (files_finished final description)

  -- `tftpRequest` and the start of the reception
  abbrev pub tftp_request :
      (H → H → Bool)
      → H
      → RequestType
      → Bytes
      → Operation H DownloadStatus
      → Operation H DownloadStatus × List (Action H DownloadStatus)
  tftp_request same_host = Requests.tftp_request same_host media_defined_download_request

  -- The handler is called with the files and the data of a request.
  abbrev pub request_reception : Reception H DownloadStatus RequestFile
  request_reception = record {
    decode_file =
        RequestFile.decode
          (record { protocol_version = arinc_615a_34; files = []; user_defined_data = [] });
    version_of = λ file. file.protocol_version;
    call = λ file. call_downloading_request file.files file.user_defined_data;
    transfer_failed = codes "Receive dowmload request file failed";
    version_invalid = codes "Request file protocol version invalid";
    format_error = codes "Request file format error";
  }

  -- `requestFileCompleted`
  abbrev pub file_completed :
      Bool
      → Bytes
      → Operation H DownloadStatus
      → Operation H DownloadStatus × Result (List (Action H DownloadStatus))
  file_completed = file_received download_format request_reception
