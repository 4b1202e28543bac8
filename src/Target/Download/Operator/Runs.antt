-- ===== src/Target/Download/Operator/Runs.antt =====
-- The operator defined download of a target as a whole: whatever calls come in, in whatever order.
use arinc_615a_gui_tool_suit.Base.{ℕ, ◌≡◌, refl, ok, err, Bool, Option, List, [], Bytes, Result}
use arinc_615a_gui_tool_suit.RawData.{RawData}
use arinc_615a_gui_tool_suit.Codes.{FinalStatus}
use arinc_615a_gui_tool_suit.Status.{DownloadStatus, file}
use arinc_615a_gui_tool_suit.Files.ProtocolFilename.{operator_defined_download_answer}
use arinc_615a_gui_tool_suit.Tftp.Client.{TransferStatus, successful}
use arinc_615a_gui_tool_suit.Target.Operation.{
  Operation, Action, RequestType, TimerResult, start, send_init_file_complete, actions_of, sound,
  protocol_file_operation,
}
use arinc_615a_gui_tool_suit.Target.Transmission.{timer_handler, play}
use arinc_615a_gui_tool_suit.Target.Transmission.Sent.{status_files, Numbered}
use arinc_615a_gui_tool_suit.Target.Transmission.Numbering.{
  Numbers, quiet, accepted_operation-Numbers, in_progress-Numbers, finished-Numbers,
  send_init_file_complete-Numbers, timer_handler-Numbers, completed_status-Numbers, play-Numbers,
}
use arinc_615a_gui_tool_suit.Target.Requests.Numbering.{
  start-Numbers, tftp_request-Numbers, file_received-Numbers,
}
use arinc_615a_gui_tool_suit.Target.Download.{
  download_format, file_accepted, file_in_progress, file_finished, files_finished,
}
use arinc_615a_gui_tool_suit.Target.Download.Entries.{
  change_status-Numbers, in_progress_ratio-Numbers,
}
use arinc_615a_gui_tool_suit.Target.Download.Operator.{
  accepted_called, in_progress_called, finished_called, in_progress_with_ratio, accept_file,
  progress_file, finish_file, finish_files, status_file_done, tftp_request, answer_reception,
  file_completed, downloading_list, list_transferred,
}
use arinc_615a_gui_tool_suit.Files.Download.ListFile.{FileInformation}
use arinc_615a_gui_tool_suit.Files.Download.ListFile

-- The calls of the user, of the TFTP server, of the timer and of the transfers.
pub data Event (H : Type 0) : Type 0 where
  start_called : H → Option ℕ → Event H
  initialisation_sent : Bool → Event H
  user_accepted : Event H
  user_in_progress : Bool → ℕ → Bytes → Event H
  user_in_progress_ratio : Bool → ℕ → Bytes → ℕ → Event H
  user_file_accepted : Bytes → Event H
  user_file_in_progress : Bytes → Bytes → Event H
  user_file_finished : Bytes → FinalStatus → Bytes → Event H
  user_files_finished : FinalStatus → Bytes → Event H
  user_finished : FinalStatus → Bytes → Event H
  tftp_requested : H → RequestType → Bytes → Event H
  request_received : Bool → Bytes → Event H
  timer_ended : TimerResult → Event H
  user_downloading_list : List FileInformation → Event H
  list_sent : TransferStatus → Event H
  status_transferred : DownloadStatus → TransferStatus → Event H

module _ {H : Type 0} (same_host : H → H → Bool) ⦃lib : RawData⦄ where
  pub handle :
      Event H
      → Operation H DownloadStatus
      → Operation H DownloadStatus × Result (List (Action H DownloadStatus))
  handle (start_called host port) op = start host port op
  handle (initialisation_sent done) op = sound (send_init_file_complete done op)
  handle user_accepted op = sound (accepted_called op)
  handle (user_in_progress immediate time description) op =
      sound (in_progress_called immediate time description op)
  handle (user_in_progress_ratio immediate time description ratio) op =
      sound (in_progress_with_ratio immediate time description ratio op)
  handle (user_file_accepted name) op = sound (accept_file name op, [])
  handle (user_file_in_progress name description) op = sound (progress_file name description op, [])
  handle (user_file_finished name final description) op =
      sound (finish_file name final description op, [])
  handle (user_files_finished final description) op = sound (finish_files final description op, [])
  handle (user_finished final description) op = sound (finished_called final description op)
  handle (tftp_requested remote type filename) op =
      sound (tftp_request same_host remote type filename op)
  handle (request_received done raw_file) op = file_completed done raw_file op
  handle (user_downloading_list files) op = downloading_list files op
  handle (list_sent transfer) op = sound (list_transferred transfer op)
  handle (timer_ended result) op = timer_handler download_format result op
  handle (status_transferred sent transfer) op = sound (status_file_done sent transfer op)

  downloading_list-Numbers :
      (files : List FileInformation) (op : Operation H DownloadStatus)
      → Numbers download_format op
          (downloading_list files op).0
          (actions_of (downloading_list files op).1)
  unfolding downloading_list protocol_file_operation status_files
  downloading_list-Numbers files op =
      go (ListFile.encode (record { protocol_version = op.protocol_version; files = files })) refl
    where
      go :
          (result : Result Bytes)
          → ListFile.encode (record { protocol_version = op.protocol_version; files = files })
            ≡ result
          → Numbers download_format op
              (downloading_list files op).0
              (actions_of (downloading_list files op).1)
      go (ok raw_file) e = rw (e, downloading_list) (quiet download_format op op _ refl refl refl)
      go (err error) e = rw (e, downloading_list) (quiet download_format op op _ refl refl refl)

  list_transferred-Numbers :
      (transfer : TransferStatus) (op : Operation H DownloadStatus)
      → let r = list_transferred transfer op in Numbers download_format op r.0 r.1
  unfolding list_transferred status_files
  list_transferred-Numbers successful op = quiet download_format op op [] refl refl refl
  list_transferred-Numbers _ op = finished-Numbers download_format _ _ op

  handle-Numbers :
      (event : Event H) (op : Operation H DownloadStatus)
      → Numbers download_format op (handle event op).0 (actions_of (handle event op).1)
  unfolding handle file_accepted file_in_progress file_finished files_finished file status_files
  handle-Numbers (start_called host port) op = start-Numbers download_format host port op
  handle-Numbers (initialisation_sent done) op =
      send_init_file_complete-Numbers download_format done op
  handle-Numbers user_accepted op = accepted_operation-Numbers download_format op
  handle-Numbers (user_in_progress immediate time description) op =
      in_progress-Numbers download_format immediate time description op
  handle-Numbers (user_in_progress_ratio immediate time description ratio) op =
      in_progress_ratio-Numbers immediate time description ratio op
  handle-Numbers (user_file_accepted name) op = change_status-Numbers _ op refl
  handle-Numbers (user_file_in_progress name description) op = change_status-Numbers _ op refl
  handle-Numbers (user_file_finished name final description) op = change_status-Numbers _ op refl
  handle-Numbers (user_files_finished final description) op = change_status-Numbers _ op refl
  handle-Numbers (user_finished final description) op =
      finished-Numbers download_format final description op
  handle-Numbers (tftp_requested remote type filename) op =
      tftp_request-Numbers download_format same_host operator_defined_download_answer remote type
        filename op
  handle-Numbers (request_received done raw_file) op =
      file_received-Numbers download_format answer_reception (λ file. refl) done raw_file op
  handle-Numbers (user_downloading_list files) op = downloading_list-Numbers files op
  handle-Numbers (list_sent transfer) op = list_transferred-Numbers transfer op
  handle-Numbers (timer_ended result) op = timer_handler-Numbers download_format result op
  handle-Numbers (status_transferred sent transfer) op =
      completed_status-Numbers download_format sent transfer op

  -- Whatever calls come in, in whatever order and with whatever arguments: the download status files
  -- that the target sends carry the numbers from the counter of its status on, one after the other
  -- modulo 2 ^ 16, none has the invalid code, each holds the encoding of the status that its
  -- completion reports to the handler, and the counter ends behind the last number.
  pub operator-Numbered :
      (events : List (Event H)) (op : Operation H DownloadStatus)
      → let r = play handle events op in
        Numbered download_format op.protocol_version op.status.status.counter
          (status_files r.1)
          r.0.status.status.counter
  operator-Numbered events op = (play-Numbers download_format handle handle-Numbers events op).files
