-- ===== src/Target/Upload/Runs.antt =====
-- The upload operation of a target as a whole: whatever calls come in, in whatever order.
use arinc_615a_gui_tool_suit.Base.{
  ℕ, ◌≡◌, refl, ap, Bool, true, false, Option, List, [], Bytes, Result,
}
use arinc_615a_gui_tool_suit.RawData.{RawData}
use arinc_615a_gui_tool_suit.Codes.{FinalStatus}
use arinc_615a_gui_tool_suit.Status.{UploadStatus, set_status, load}
use arinc_615a_gui_tool_suit.Files.ProtocolFilename.{upload_request}
use arinc_615a_gui_tool_suit.Tftp.Client.{TransferStatus}
use arinc_615a_gui_tool_suit.Target.Operation.{
  Operation, Action, RequestType, TimerResult, start, send_init_file_complete, actions_of, sound,
}
use arinc_615a_gui_tool_suit.Target.Transmission.{timer_handler, play}
use arinc_615a_gui_tool_suit.Target.Transmission.Sent.{status_files, Numbered}
use arinc_615a_gui_tool_suit.Target.Transmission.Numbering.{
  Numbers, quiet, accepted_operation-Numbers, in_progress-Numbers, finished-Numbers,
  send_init_file_complete-Numbers, timer_handler-Numbers, completed_status-Numbers, play-Numbers,
}
use arinc_615a_gui_tool_suit.Target.Requests.Numbering.{
  start-Numbers, tftp_request-Numbers, file_received-Numbers,
}
use arinc_615a_gui_tool_suit.Target.Upload.{
  upload_format, load_accepted, load_in_progress, load_finished, loads_finished, in_progress_ratio,
  change_status, accepted_called, in_progress_called, finished_called, status_file_done,
  tftp_request, request_reception, request_file_completed,
}

-- The calls of the user, of the TFTP server, of the timer and of the transfers.
pub data Event (H : Type 0) : Type 0 where
  start_called : H → Option ℕ → Event H
  initialisation_sent : Bool → Event H
  user_accepted : Event H
  user_in_progress : Bool → ℕ → Bytes → Event H
  user_in_progress_ratio : Bool → ℕ → Bytes → ℕ → Event H
  user_load_accepted : Bytes → Bytes → Event H
  user_load_in_progress : Bytes → ℕ → Bytes → Event H
  user_load_finished : Bytes → FinalStatus → Bytes → Event H
  user_loads_finished : FinalStatus → Bytes → Event H
  user_finished : FinalStatus → Bytes → Event H
  tftp_requested : H → RequestType → Bytes → Event H
  request_received : Bool → Bytes → Event H
  timer_ended : TimerResult → Event H
  status_transferred : UploadStatus → TransferStatus → Event H

module _ {H : Type 0} (same_host : H → H → Bool) ⦃lib : RawData⦄ where
  pub handle :
      Event H
      → Operation H UploadStatus
      → Operation H UploadStatus × Result (List (Action H UploadStatus))
  handle (start_called host port) op = start host port op
  handle (initialisation_sent done) op = sound (send_init_file_complete done op)
  handle user_accepted op = sound (accepted_called op)
  handle (user_in_progress immediate time description) op =
      sound (in_progress_called immediate time description op)
  handle (user_in_progress_ratio immediate time description ratio) op =
      sound (in_progress_ratio immediate time description ratio op)
  handle (user_load_accepted name part_number) op =
      sound (change_status (load_accepted name part_number) op, [])
  handle (user_load_in_progress name ratio description) op =
      sound (change_status (load_in_progress name ratio description) op, [])
  handle (user_load_finished name final description) op =
      sound (change_status (load_finished name final description) op, [])
  handle (user_loads_finished final description) op =
      sound (change_status (loads_finished final description) op, [])
  handle (user_finished final description) op = sound (finished_called final description op)
  handle (tftp_requested remote type filename) op =
      sound (tftp_request same_host remote type filename op)
  handle (request_received done raw_file) op = request_file_completed done raw_file op
  handle (timer_ended result) op = timer_handler upload_format result op
  handle (status_transferred sent transfer) op = sound (status_file_done sent transfer op)

  change_status-Numbers :
      (change : UploadStatus → UploadStatus) (op : Operation H UploadStatus)
      → (change op.status).status ≡ op.status.status
      → Numbers upload_format op (change_status change op) []
  unfolding change_status status_files
  change_status-Numbers change op h = quiet upload_format _ _ _ refl refl (ap (λ s. s.counter) h)

  in_progress_ratio-Numbers :
      (immediate : Bool) (time : ℕ) (description : Bytes) (ratio : ℕ)
      (op : Operation H UploadStatus)
      → let r = in_progress_ratio immediate time description ratio op in
        Numbers upload_format op r.0 r.1
  unfolding in_progress_ratio set_status status_files
  in_progress_ratio-Numbers true time description ratio op =
      quiet upload_format _ _ _ refl refl refl
  in_progress_ratio-Numbers false time description ratio op =
      quiet upload_format _ _ _ refl refl refl

  handle-Numbers :
      (event : Event H) (op : Operation H UploadStatus)
      → Numbers upload_format op (handle event op).0 (actions_of (handle event op).1)
  unfolding handle load_accepted load_in_progress load_finished loads_finished load status_files
  handle-Numbers (start_called host port) op = start-Numbers upload_format host port op
  handle-Numbers (initialisation_sent done) op =
      send_init_file_complete-Numbers upload_format done op
  handle-Numbers user_accepted op = accepted_operation-Numbers upload_format op
  handle-Numbers (user_in_progress immediate time description) op =
      in_progress-Numbers upload_format immediate time description op
  handle-Numbers (user_in_progress_ratio immediate time description ratio) op =
      in_progress_ratio-Numbers immediate time description ratio op
  handle-Numbers (user_load_accepted name part_number) op = change_status-Numbers _ op refl
  handle-Numbers (user_load_in_progress name ratio description) op = change_status-Numbers _ op refl
  handle-Numbers (user_load_finished name final description) op = change_status-Numbers _ op refl
  handle-Numbers (user_loads_finished final description) op = change_status-Numbers _ op refl
  handle-Numbers (user_finished final description) op =
      finished-Numbers upload_format final description op
  handle-Numbers (tftp_requested remote type filename) op =
      tftp_request-Numbers upload_format same_host upload_request remote type filename op
  handle-Numbers (request_received done raw_file) op =
      file_received-Numbers upload_format request_reception (λ file. refl) done raw_file op
  handle-Numbers (timer_ended result) op = timer_handler-Numbers upload_format result op
  handle-Numbers (status_transferred sent transfer) op =
      completed_status-Numbers upload_format sent transfer op

  -- Whatever calls come in, in whatever order and with whatever arguments: the upload status files
  -- that the target sends carry the numbers from the counter of its status on, one after the other
  -- modulo 2 ^ 16, none has the invalid code, each holds the encoding of the status that its
  -- completion reports to the handler, and the counter ends behind the last number.
  pub upload-Numbered :
      (events : List (Event H)) (op : Operation H UploadStatus)
      → let r = play handle events op in
        Numbered upload_format op.protocol_version op.status.status.counter
          (status_files r.1)
          r.0.status.status.counter
  upload-Numbered events op = (play-Numbers upload_format handle handle-Numbers events op).files
