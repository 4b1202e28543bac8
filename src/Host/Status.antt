-- ===== src/Host/Status.antt =====
-- The reception of status files by a data loader, which the classes repeat, each for its own status
-- (lib/arinc_615a/host/implementation/UploadOperationImpl.cpp, DownloadOperationImpl.cpp and
-- InformationOperationImpl.cpp).
pub mod Receptions
pub mod Pending
use arinc_615a_gui_tool_suit.Base.{
  ℕ, zero, suc, ◌+◌, ◌==◌, Bool, true, false, not, Option, none, some, List, [], ◌∷◌, ◌++◌, Bytes,
  codes, if◌then◌else◌, Result, ok, err, Error, arinc_615a_exception,
}
use arinc_615a_gui_tool_suit.Codes.{
  StatusCode, operation_accepted, operation_in_progress, operation_in_progress_additional_info,
  operation_not_accepted, operation_not_supported, operation_completed,
  operation_aborted_by_target_hw, operation_aborted_by_dlp, operation_aborted_by_operator,
}
use arinc_615a_gui_tool_suit.Status
use arinc_615a_gui_tool_suit.Host.Operation.{
  Operation, Action, receive_status, call_status, throw_error, finished, is_aborted,
  trigger_dlp_timeout,
}

-- `remove( operation )` of a list, and the number of elements that it removes.
abbrev pub remove : ℕ → List ℕ → List ℕ
remove operation [] = []
remove operation (o ∷ operations) =
    let rest = remove operation operations in if o == operation then rest else o ∷ rest

abbrev pub removed : ℕ → List ℕ → ℕ
removed operation [] = 0
removed operation (o ∷ operations) =
    let rest = removed operation operations in if o == operation then suc rest else rest

-- Status files with a status `S`: how they are decoded, and what the status inherits from `Status`.
-- Their version is compared, and a difference only reported to the log. `mark` is what the class does
-- about an acceptance or a progress.
pub record StatusSource (S : Type 0) : Type 0 where
  pub decode_status : Bytes → Result S
  pub overall : S → Status.Status
  pub mark : Operation → Operation

module _ {H S : Type 0} where
  -- `statusFileRequest`
  unfoldable pub status_file_request : H → Operation → Operation × List (Action H S)
  status_file_request remote op = elim (is_aborted {S = S} remote op) [
    | some aborted ↦ aborted
    | none ↦ (
      record op {
        status_operations = op.next_operation ∷ op.status_operations;
        next_operation = op.next_operation + 1;
      },
      receive_status remote op.next_operation ∷ [],
    )
  ]

  module _ (source : StatusSource S) where
    open source use {decode_status, overall, mark}

    -- The `switch` over the code of a status.
    unfoldable pub status_switch : S → StatusCode → Operation → Operation × List (Action H S)
    status_switch status operation_not_accepted op =
        finished operation_not_accepted (overall status).description op
    status_switch status operation_not_supported op =
        finished operation_not_supported (overall status).description op
    status_switch status operation_completed op =
        finished operation_completed (overall status).description op
    status_switch status operation_aborted_by_target_hw op =
        finished operation_aborted_by_target_hw (overall status).description op
    status_switch status operation_aborted_by_dlp op =
        finished operation_aborted_by_dlp (overall status).description op
    status_switch status operation_aborted_by_operator op =
        finished operation_aborted_by_operator (overall status).description op
    status_switch status operation_accepted op = (mark op, trigger_dlp_timeout 0 op)
    status_switch status operation_in_progress op =
        (mark op, trigger_dlp_timeout (overall status).exception_timer op)
    status_switch status operation_in_progress_additional_info op =
        (mark op, trigger_dlp_timeout (overall status).exception_timer op)
    status_switch status _ op = finished operation_aborted_by_dlp [] op

    -- The `try` block; an exception of the library is only logged.
    unfoldable pub status_decoded : Result S → Operation → Operation × Result (List (Action H S))
    status_decoded (ok status) op =
        let (next, actions) = status_switch status (overall status).code op in
        (next, ok (call_status status ∷ actions))
    status_decoded (err arinc_615a_exception) op = (op, ok [])
    status_decoded (err other) op = (op, err other)

    -- `statusFileCompleted` behind the search for the operation.
    unfoldable pub status_received :
        Bool → Bytes → Operation → Operation × Result (List (Action H S))
    status_received false raw_file op =
        let (next, actions) =
          finished operation_aborted_by_dlp (codes "Status file could not be received") op in
        (next, ok actions)
    status_received true raw_file op = status_decoded (decode_status raw_file) op

    -- `statusFileCompleted` of the upload and of the downloads: an operation that is not known is
    -- reported, and handled nevertheless.
    unfoldable pub status_file_completed :
        ℕ → Bool → Bytes → Operation → Operation × Result (List (Action H S))
    status_file_completed operation done raw_file op =
        let known : Operation = record op {
          status_operations = remove operation op.status_operations;
        } in
        if removed operation op.status_operations == 1
        then status_received done raw_file known
        else (let (first, reported) =
              finished operation_aborted_by_dlp
                (codes "Status file operation completed, which was not initiated") known in
            let (next, result) = status_received done raw_file first in
            (
              next,
              elim result [
                | ok actions ↦ ok (reported ++ actions)
                | err e ↦ ok (reported ++ throw_error e ∷ [])
              ],
            ))

    -- `statusFileCompleted` of the information operation, which ends there.
    unfoldable pub status_file_completed_once :
        ℕ → Bool → Bytes → Operation → Operation × Result (List (Action H S))
    status_file_completed_once operation done raw_file op =
        let known : Operation = record op {
          status_operations = remove operation op.status_operations;
        } in
        if removed operation op.status_operations == 1
        then status_received done raw_file known
        else (let (next, actions) =
              finished operation_aborted_by_dlp
                (codes "Status file operation completed, which was not initiated") known in
            (next, ok actions))
