-- ===== src/Target/Information.antt =====
-- The information operation of a target
-- (lib/arinc_615a/target/implementation/InformationOperationImpl.cpp). It sends its status at once
-- where the others trigger the timer. The check value that goes with the list is computed by
-- another repository, and is left out.
pub mod Runs
use arinc_615a_gui_tool_suit.Base.{
  ℕ, refl, Bool, true, false, List, [], ◌∷◌, Bytes, codes, if◌then◌else◌, Result, ok, err,
}
use arinc_615a_gui_tool_suit.RawData.{RawData}
use arinc_615a_gui_tool_suit.Codes.{
  StatusCode, FinalStatus, completed, aborted_by_target_hardware, status_code_of_final,
  operation_accepted, operation_completed, abort_by_dlp, abort_by_operator,
}
use arinc_615a_gui_tool_suit.Status.{Status}
use arinc_615a_gui_tool_suit.Files.ProtocolFilename.{
  load_configuration_status, load_configuration_list,
}
use arinc_615a_gui_tool_suit.Files.Information.StatusFile
use arinc_615a_gui_tool_suit.Files.Information.LoadConfigurationList.{TargetHardware}
use arinc_615a_gui_tool_suit.Files.Information.LoadConfigurationList
use arinc_615a_gui_tool_suit.Tftp.Client.{
  TransferStatus, successful, operation_aborted_by_dlp, operation_aborted_by_operator,
}
use arinc_615a_gui_tool_suit.Target.Operation.{
  Operation, Action, StatusFormat, RequestType, file_not_found, answer_error, call_status,
  throw_error, target_information_completed, protocol_file_operation, finalise, actions_of, sound,
}
use arinc_615a_gui_tool_suit.Target.Transmission.{
  is_invalid, progress_code, set, status_file, completed_status,
}

module _ ⦃lib : RawData⦄ where
  -- The status is a plain `Status`.
  abbrev pub information_format : StatusFormat Status
  information_format = record {
    overall = λ s. s;
    with_overall = λ status s. status;
    status_type = load_configuration_status;
    encode_status =
        λ version s. StatusFile.encode (record { protocol_version = version; status = s });
    overall-with_overall = λ status s. refl;
  }

module _ {H : Type 0} ⦃lib : RawData⦄ where
  -- `status`
  abbrev pub set_information_status :
      StatusCode → Bytes → ℕ → Operation H Status → Operation H Status
  set_information_status = set information_format

  -- `statusFile`
  abbrev pub information_status_file :
      Operation H Status → Operation H Status × Result (List (Action H Status))
  information_status_file = status_file information_format

  -- `accepted`
  pub accepted_called : Operation H Status → Operation H Status × Result (List (Action H Status))
  accepted_called op = information_status_file (set_information_status operation_accepted [] 0 op)

  -- `inProgress`
  pub in_progress_called :
      Bool → ℕ → Bytes → Operation H Status → Operation H Status × Result (List (Action H Status))
  in_progress_called immediate estimated_time description op =
      let next = set_information_status (progress_code description) description estimated_time op in
      if immediate then information_status_file next else (next, ok [])

  -- `finished`
  pub finished_called :
      FinalStatus
      → Bytes
      → Operation H Status
      → Operation H Status × Result (List (Action H Status))
  finished_called final description op =
      information_status_file (set_information_status (status_code_of_final final) description 0 op)

  -- `targetInformation`
  pub target_information :
      List TargetHardware
      → Operation H Status
      → Operation H Status × Result (List (Action H Status))
  target_information targets op =
      elim (LoadConfigurationList.encode
        (record { protocol_version = op.protocol_version; targets_hardware = targets })) [
          | ok raw_file ↦ (
            op,
            ok (
                protocol_file_operation load_configuration_list target_information_completed
                  raw_file op
                ∷ []),
          )
          | err e ↦ (op, err e)
        ]

  -- `tftpRequest`
  pub tftp_request :
      H → RequestType → Bytes → Operation H Status → Operation H Status × List (Action H Status)
  tftp_request remote type filename op = (op, answer_error remote file_not_found ∷ [])

  -- The two `switch` statements: an acceptance that was sent is followed by the progress, with -1 for the
  -- time; all else is like the other operations.
  pub status_done :
      Status
      → TransferStatus
      → StatusCode
      → Operation H Status
      → Operation H Status × Result (List (Action H Status))
  status_done sent successful operation_accepted op =
      let (op', result) =
        in_progress_called true 0xffff [] (record op { status_operation = false }) in
      (
        op',
        elim result [
          | ok actions ↦ ok (call_status sent ∷ actions)
          | err e ↦ ok (call_status sent ∷ throw_error e ∷ [])
        ],
      )
  status_done sent transfer code op = sound (completed_status information_format sent transfer op)

  -- `statusFileCompleted`
  abbrev pub status_file_done :
      Status
      → TransferStatus
      → Operation H Status
      → Operation H Status × Result (List (Action H Status))
  status_file_done sent transfer op = status_done sent transfer sent.code op

  -- `targetInformationCompleted`
  pub information_transferred :
      TransferStatus → Operation H Status → Operation H Status × Result (List (Action H Status))
  information_transferred successful op =
      if is_invalid op.status.code
      then sound (finalise completed [] op)
      else information_status_file (set_information_status operation_completed [] 0 op)
  information_transferred _ op =
      finished_called aborted_by_target_hardware (codes "Target Information transmission failed") op
