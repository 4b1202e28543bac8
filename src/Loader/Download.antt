-- ===== src/Loader/Download.antt =====
-- The downloads of the application: lib/arinc_615a_dla_qt/operations/OperatorDefinedDownloadOperation.cpp
-- and MediaDefinedDownloadOperation.cpp, which differ in the data loader's operation that they start.
use arinc_615a_gui_tool_suit.Base.{
  ℕ, ◌+◌, ◌==◌, Bool, true, false, Option, none, some, List, [], ◌∷◌, ◌++◌, Bytes, codes, map,
  if◌then◌else◌, Result, ok, err,
}
use arinc_615a_gui_tool_suit.TargetId.{TargetId}
use arinc_615a_gui_tool_suit.Codes.{StatusCode, operation_aborted_by_dlp}
use arinc_615a_gui_tool_suit.Codes.Texts.{download, status_text}
use arinc_615a_gui_tool_suit.Status.{DownloadStatus}
use arinc_615a_gui_tool_suit.Host
use arinc_615a_gui_tool_suit.Host.Operation.{protocol, do_abort}
use arinc_615a_gui_tool_suit.Tftp.Client.{TransferStatus, successful}
use arinc_615a_gui_tool_suit.Host.Status.{remove, removed}
use arinc_615a_gui_tool_suit.Host.DownloadInformation.{
  DownloadInformation, start, set_files, file_start, file_finished, finished, transfer_ok,
  transfer_error,
}
use arinc_615a_gui_tool_suit.Loader.Signals.{
  Action, host_action, show_error, operation_finished, start_transfer, caught, handled,
}

-- `OperatorDefinedDownloadOperation` and `MediaDefinedDownloadOperation`. Addresses are `A`, check
-- values are `C`.
pub record Download (A C : Type 0) : Type 0 where
  pub operation : Option Host.Operation.Operation
  pub information : DownloadInformation A C
  pub file_operations : List ℕ
  pub next_file : ℕ

-- The message and the signal for a directory that is not created.
abbrev pub directory_error : {H : Type 0} → Bool → List (Action H DownloadStatus Bytes)
directory_error true = []
directory_error false =
    show_error
    ∷ operation_finished operation_aborted_by_dlp (codes "Error creating download directory")
    ∷ []

-- The protocol's abort of an operation that is there.
abbrev pub abort_protocol :
    {H : Type 0}
    → Option Host.Operation.Operation
    → Option Host.Operation.Operation × List (Action H DownloadStatus Bytes)
abort_protocol none = (none, [])
abort_protocol (some op) =
    let (next, actions) = do_abort protocol op in (some next, map host_action actions)

module _ {A C : Type 0} (no_check_value : C) where
  -- The entry of the file, once its transfer is over.
  abbrev pub transferred :
      ℕ
      → Bytes
      → Result ℕ
      → TransferStatus
      → DownloadInformation A C
      → Result (DownloadInformation A C)
  transferred now filename (ok size) successful information =
      ok (file_finished no_check_value now filename transfer_ok size information)
  transferred now filename (err e) successful information = err e
  transferred now filename size _ information =
      ok (file_finished no_check_value now filename transfer_error 0 information)

module _ {A C H : Type 0} where
  -- `startOperation`, with whether the directory is created, with what the protocol makes or throws,
  -- and with the `start` of the data loader's operation. It goes on without the directory.
  abbrev pub start_operation :
      (Host.Operation.Operation
        → Host.Operation.Operation × List (Host.Operation.Action H DownloadStatus))
      → Bool
      → Result Host.Operation.Operation
      → ℕ
      → TargetId
      → A
      → Download A C
      → Download A C × Result (List (Action H DownloadStatus Bytes))
  start_operation begin is_created (err e) now target_id address d = (
    record d { information = start now target_id address d.information },
    (elim (caught e) [
      | ok actions ↦ ok (directory_error is_created ++ actions)
      | err other ↦ err other
    ]),
  )
  start_operation begin is_created (ok operation) now target_id address d =
      let (op, actions) = begin operation in
      (
        record d { operation = some op; information = start now target_id address d.information },
        ok (directory_error is_created ++ map host_action actions),
      )

  -- `transmitFiles`, with `answer` or `request` of the data loader's operation.
  abbrev pub transmit_files :
      (List Bytes
        → Host.Operation.Operation
        → Host.Operation.Operation × Result (List (Host.Operation.Action H DownloadStatus)))
      → List Bytes
      → Download A C
      → Download A C × Result (List (Action H DownloadStatus Bytes))
  transmit_files send files d = elim d.operation [
    | none ↦ (d, ok [])
    | some op ↦
        let (next, result) = send files op in
        (
          record d { operation = some next; information = set_files files d.information },
          handled result,
        )
  ]

  -- `finished`, with what `save` throws, if it does.
  abbrev pub operation_finished_with :
      Result (Unit {0})
      → ℕ
      → StatusCode
      → Bytes
      → Download A C
      → Download A C × Result (List (Action H DownloadStatus Bytes))
  operation_finished_with saved now code description d = (
    record d {
      information = finished now (status_text download code description []) d.information;
    },
    (elim saved [ ok done ↦ ok (operation_finished code description ∷ []) | err e ↦ caught e ]),
  )

  -- `fileRequest`, with the path in the download directory for the name of the file.
  abbrev pub file_request :
      (Bytes → Bytes)
      → ℕ
      → H
      → Bytes
      → Bytes
      → C
      → Download A C
      → Download A C × List (Action H DownloadStatus Bytes)
  file_request path now remote filename part_number check_value d = (
    record d {
      information = file_start now filename (path filename) part_number check_value d.information;
      file_operations = d.next_file ∷ d.file_operations;
      next_file = d.next_file + 1;
    },
    start_transfer d.next_file remote (path filename) ∷ [],
  )

  module _ (no_check_value : C) where
    -- `fileCompleted`, with the size of the file or what `file_size` throws. A transfer that was not
    -- created aborts the operation, and its result is noted too.
    abbrev pub file_completed :
        ℕ
        → Bytes
        → Result ℕ
        → ℕ
        → TransferStatus
        → Download A C
        → Download A C × Result (List (Action H DownloadStatus Bytes))
    file_completed now filename size transfer status d =
        let known : Download A C = record d {
          file_operations = remove transfer d.file_operations;
        } in
        let (op, actions) =
          if removed transfer d.file_operations == 1
          then (known.operation, [])
          else abort_protocol known.operation in
        elim (transferred no_check_value now filename size status known.information) [
          | ok information ↦
              (record known { operation = op; information = information }, ok actions)
          | err e ↦ (record known { operation = op }, err e)
        ]
