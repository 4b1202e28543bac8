-- ===== src/Target/Information/Runs.antt =====
-- The information operation of a target as a whole: whatever calls come in, in whatever order.
use arinc_615a_gui_tool_suit.Base.{
  ℕ, ◌≡◌, refl, inl, inr, Bool-cases, Bool, true, false, Option, List, [], ◌∷◌, Bytes, Result, ok,
  err,
}
use arinc_615a_gui_tool_suit.RawData.{RawData}
use arinc_615a_gui_tool_suit.Codes.{StatusCode, FinalStatus, operation_accepted}
use arinc_615a_gui_tool_suit.Status.{Status}
use arinc_615a_gui_tool_suit.Files.Information.LoadConfigurationList.{TargetHardware}
use arinc_615a_gui_tool_suit.Files.Information.LoadConfigurationList
use arinc_615a_gui_tool_suit.Tftp.Client.{TransferStatus, successful}
use arinc_615a_gui_tool_suit.Target.Operation.{
  Operation, Action, RequestType, TimerResult, start, send_init_file_complete, actions_of, sound,
  call_status, throw_error, protocol_file_operation, finalise,
}
use arinc_615a_gui_tool_suit.Target.Transmission.{is_invalid, timer_handler, play, status_file, set}
use arinc_615a_gui_tool_suit.Target.Transmission.Sent.{status_files, Numbered}
use arinc_615a_gui_tool_suit.Target.Transmission.Numbering.{
  Numbers, quiet, send_init_file_complete-Numbers, timer_handler-Numbers, completed_status-Numbers,
  play-Numbers, set_then, set-Numbers, status_file-Numbers,
}
use arinc_615a_gui_tool_suit.Target.Requests.Numbering.{start-Numbers}
use arinc_615a_gui_tool_suit.Target.Information.{
  information_format, accepted_called, in_progress_called, finished_called, target_information,
  tftp_request, status_done, status_file_done, information_transferred,
}

-- The calls of the user, of the TFTP server, of the timer and of the transfers.
pub data Event (H : Type 0) : Type 0 where
  start_called : H → Option ℕ → Event H
  initialisation_sent : Bool → Event H
  user_accepted : Event H
  user_in_progress : Bool → ℕ → Bytes → Event H
  user_finished : FinalStatus → Bytes → Event H
  user_target_information : List TargetHardware → Event H
  tftp_requested : H → RequestType → Bytes → Event H
  timer_ended : TimerResult → Event H
  status_transferred : Status → TransferStatus → Event H
  information_sent : TransferStatus → Event H

module _ {H : Type 0} ⦃lib : RawData⦄ where
  pub handle : Event H → Operation H Status → Operation H Status × Result (List (Action H Status))
  handle (start_called host port) op = start host port op
  handle (initialisation_sent done) op = sound (send_init_file_complete done op)
  handle user_accepted op = accepted_called op
  handle (user_in_progress immediate time description) op =
      in_progress_called immediate time description op
  handle (user_finished final description) op = finished_called final description op
  handle (user_target_information targets) op = target_information targets op
  handle (tftp_requested remote type filename) op = sound (tftp_request remote type filename op)
  handle (timer_ended result) op = timer_handler information_format result op
  handle (status_transferred sent transfer) op = status_file_done sent transfer op
  handle (information_sent transfer) op = information_transferred transfer op

  abbrev Numbering :
      Operation H Status → Operation H Status × Result (List (Action H Status)) → Type 0
  Numbering op r = Numbers information_format op r.0 (actions_of r.1)

  set-status_file-Numbering :
      (code : StatusCode) (description : Bytes) (time : ℕ) (op : Operation H Status)
      → Numbering op
          (status_file information_format (set information_format code description time op))
  set-status_file-Numbering code description time op =
      set_then information_format code description time op _ _
        (status_file-Numbers information_format (set information_format code description time op))

  in_progress_called-Numbering :
      (immediate : Bool) (time : ℕ) (description : Bytes) (op : Operation H Status)
      → Numbering op (in_progress_called immediate time description op)
  unfolding in_progress_called status_files
  in_progress_called-Numbering true time description op = set-status_file-Numbering _ _ _ op
  in_progress_called-Numbering false time description op =
      set-Numbers information_format _ _ _ op [] refl

  -- The call of the handler in front, and an exception behind, are no status files.
  called :
      (op op' : Operation H Status) (sent : Status) (result : Result (List (Action H Status)))
      → Numbering op (op', result)
      → Numbering op (
        op',
        elim result [
          | ok actions ↦ ok (call_status sent ∷ actions)
          | err e ↦ ok (call_status sent ∷ throw_error e ∷ [])
        ],
      )
  unfolding status_files
  called op op' sent (ok actions) h = record { version = h.version; files = h.files }
  called op op' sent (err e) h = record { version = h.version; files = h.files }

  status_done-Numbering :
      (sent : Status) (transfer : TransferStatus) (code : StatusCode) (op : Operation H Status)
      → Numbering op (status_done sent transfer code op)
  unfolding status_done
  status_done-Numbering sent successful operation_accepted op =
      let before : Operation H Status = record op { status_operation = false } in
      let r = in_progress_called true 0xffff [] before in
      let h = called before r.0 sent r.1 (in_progress_called-Numbering true 0xffff [] before) in
      record { version = h.version; files = h.files }
  status_done-Numbering sent transfer code op =
      completed_status-Numbers information_format sent transfer op

  target_information-Numbering :
      (targets : List TargetHardware) (op : Operation H Status)
      → Numbering op (target_information targets op)
  unfolding target_information protocol_file_operation status_files
  target_information-Numbering targets op =
      go
        (LoadConfigurationList.encode
          (record { protocol_version = op.protocol_version; targets_hardware = targets }))
        refl
    where
      go :
          (result : Result Bytes)
          → LoadConfigurationList.encode
              (record { protocol_version = op.protocol_version; targets_hardware = targets })
            ≡ result
          → Numbering op (target_information targets op)
      go (ok raw_file) e =
          rw (e, target_information) (quiet information_format op op _ refl refl refl)
      go (err error) e =
          rw (e, target_information) (quiet information_format op op _ refl refl refl)

  information_transferred-Numbering :
      (transfer : TransferStatus) (op : Operation H Status)
      → Numbering op (information_transferred transfer op)
  unfolding information_transferred finished_called finalise status_files
  information_transferred-Numbering successful op = elim (Bool-cases (is_invalid op.status.code)) [
    | inl e ↦ rw e (quiet information_format op op _ refl refl refl)
    | inr e ↦ rw e (set-status_file-Numbering _ _ _ op)
  ]
  information_transferred-Numbering _ op = set-status_file-Numbering _ _ _ op

  handle-Numbering : (event : Event H) (op : Operation H Status) → Numbering op (handle event op)
  unfolding handle accepted_called finished_called tftp_request status_files
  handle-Numbering (start_called host port) op = start-Numbers information_format host port op
  handle-Numbering (initialisation_sent done) op =
      send_init_file_complete-Numbers information_format done op
  handle-Numbering user_accepted op = set-status_file-Numbering _ _ _ op
  handle-Numbering (user_in_progress immediate time description) op =
      in_progress_called-Numbering immediate time description op
  handle-Numbering (user_finished final description) op = set-status_file-Numbering _ _ _ op
  handle-Numbering (user_target_information targets) op = target_information-Numbering targets op
  handle-Numbering (tftp_requested remote type filename) op =
      quiet information_format op op _ refl refl refl
  handle-Numbering (timer_ended result) op = timer_handler-Numbers information_format result op
  handle-Numbering (status_transferred sent transfer) op = status_done-Numbering sent transfer _ op
  handle-Numbering (information_sent transfer) op = information_transferred-Numbering transfer op

  -- Whatever calls come in, in whatever order and with whatever arguments: the status files that the
  -- target sends carry the numbers from the counter of its status on, one after the other modulo
  -- 2 ^ 16, none has the invalid code, each holds the encoding of the status that its completion
  -- reports to the handler, and the counter ends behind the last number.
  pub information-Numbered :
      (events : List (Event H)) (op : Operation H Status)
      → let r = play handle events op in
        Numbered information_format op.protocol_version op.status.counter
          (status_files r.1)
          r.0.status.counter
  information-Numbered events op =
      (play-Numbers information_format handle handle-Numbering events op).files
