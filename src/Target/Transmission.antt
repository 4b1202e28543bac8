-- ===== src/Target/Transmission.antt =====
-- The status transmission of the operations of a target, which the four classes repeat, each for
-- its own status (lib/arinc_615a/target/implementation/UploadOperationImpl.cpp and the others).
pub mod Sent
pub mod Numbering
use arinc_615a_gui_tool_suit.Base.{
  ℕ, ◌++◌, Bool, true, false, List, [], ◌∷◌, Bytes, codes, if◌then◌else◌, Result, ok, err,
}
use arinc_615a_gui_tool_suit.Codes.{
  StatusCode, FinalStatus, abort_by_dlp, abort_by_operator, final_status, status_code_of_final,
  operation_accepted, operation_in_progress, operation_in_progress_additional_info,
}
use arinc_615a_gui_tool_suit.Status.{increment_counter, set_code, set_status}
use arinc_615a_gui_tool_suit.Tftp.Client.{
  TransferStatus, successful, operation_aborted_by_dlp, operation_aborted_by_operator,
}
use arinc_615a_gui_tool_suit.Target.Operation.{
  Operation, Action, StatusFormat, TimerResult, expired, operation_cancelled, timer_error,
  status_file_completed, trigger, trigger_timer, call_status, call_abort_request,
  protocol_file_operation, finalise, actions_of,
}

abbrev pub is_invalid : StatusCode → Bool
is_invalid StatusCode.invalid = true
is_invalid _ = false

-- `description.empty() ? OperationInProgress : OperationInProgressAdditionalInfo`. The description is
-- moved in the next argument of the same call; the test is taken to come first, which the language
-- leaves open.
abbrev pub progress_code : Bytes → StatusCode
progress_code [] = operation_in_progress
progress_code (c ∷ description) = operation_in_progress_additional_info

-- The codes of a load or a file whose status is final.
unfoldable pub is_finished : StatusCode → Bool
is_finished StatusCode.operation_not_accepted = true
is_finished StatusCode.operation_not_supported = true
is_finished StatusCode.operation_completed = true
is_finished StatusCode.operation_aborted_by_target_hw = true
is_finished StatusCode.operation_aborted_by_dlp = true
is_finished StatusCode.operation_aborted_by_operator = true
is_finished StatusCode.load_part_number_or_download_file_failed = true
is_finished _ = false

-- The status of the next file: a first one that nobody has set is the acceptance.
abbrev pub forced : {S : Type 0} → StatusFormat S → S → S
forced format status =
    if is_invalid (format.overall status).code
    then format.with_overall (set_code operation_accepted (format.overall status)) status
    else status

module _ {H S : Type 0} where
  module _ (format : StatusFormat S) where
    open format use {overall, with_overall, status_type, encode_status}

    -- `status( code, description, estimatedTime )`
    unfoldable pub set : StatusCode → Bytes → ℕ → Operation H S → Operation H S
    set code description estimated_time op = record op {
      status =
          with_overall
            (record (set_status code description (overall op.status)) {
              estimated_time = estimated_time;
            })
            op.status;
    }

    unfoldable pub accepted_operation : Operation H S → Operation H S × List (Action H S)
    accepted_operation op = (set operation_accepted [] 0 op, trigger ∷ [])

    unfoldable pub in_progress :
        Bool → ℕ → Bytes → Operation H S → Operation H S × List (Action H S)
    in_progress immediate estimated_time description op = (
      set (progress_code description) description estimated_time op,
      if immediate then trigger ∷ [] else [],
    )

    unfoldable pub finished :
        FinalStatus → Bytes → Operation H S → Operation H S × List (Action H S)
    finished final description op =
        (set (status_code_of_final final) description 0 op, trigger ∷ [])

    -- `statusFile`; an exception of the encoder leaves it, behind the change of the code.
    unfoldable pub status_file : Operation H S → Operation H S × Result (List (Action H S))
    status_file op =
        let sent = forced format op.status in
        elim (encode_status op.protocol_version sent) [
          | ok raw_file ↦ (
            record op {
              status = with_overall (increment_counter (overall sent)) sent;
              status_operation = true;
            },
            ok (
                protocol_file_operation status_type (status_file_completed sent) raw_file op
                ∷ trigger_timer
                ∷ []),
          )
          | err e ↦ (record op { status = sent }, err e)
        ]

    -- `statusTransmissionTimerHandler`
    unfoldable pub timer_handler :
        TimerResult → Operation H S → Operation H S × Result (List (Action H S))
    timer_handler operation_cancelled op = (op, ok [])
    timer_handler timer_error op = status_file op
    timer_handler expired op = status_file op

    -- The `switch` over the code of a status that was sent.
    unfoldable pub status_sent : S → StatusCode → Operation H S → Operation H S × List (Action H S)
    status_sent sent operation_accepted op = (op, trigger_timer ∷ [])
    status_sent sent operation_in_progress op = (op, trigger_timer ∷ [])
    status_sent sent operation_in_progress_additional_info op = (op, trigger_timer ∷ [])
    status_sent sent code op = finalise (final_status code) (overall sent).description op

    -- `statusFileCompleted`
    unfoldable pub completed_status :
        S → TransferStatus → Operation H S → Operation H S × List (Action H S)
    completed_status sent successful op =
        let (op', actions) =
          status_sent sent (overall sent).code (record op { status_operation = false }) in
        (op', call_status sent ∷ actions)
    completed_status sent operation_aborted_by_dlp op =
        (record op { status_operation = false }, call_abort_request abort_by_dlp ∷ [])
    completed_status sent operation_aborted_by_operator op =
        (record op { status_operation = false }, call_abort_request abort_by_operator ∷ [])
    completed_status sent _ op =
        finalise FinalStatus.aborted_by_target_hardware (codes "Status transmission failed")
          (record op { status_operation = false })

module _ {H S E : Type 0} where
  -- A series of events, each handled by a member function; the loop goes on after an exception.
  pub play :
      (E → Operation H S → Operation H S × Result (List (Action H S)))
      → List E
      → Operation H S
      → Operation H S × List (Action H S)
  play handle [] op = (op, [])
  play handle (event ∷ events) op =
      let (next, result) = handle event op in
      let (final, more) = play handle events next in (final, actions_of result ++ more)
