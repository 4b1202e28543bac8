-- ===== src/Loader/Upload.antt =====
-- The upload of the application: lib/arinc_615a_dla_qt/operations/UploadOperation.cpp and
-- lib/arinc_615a_dla_qt/upload/UploadOperationWizard.cpp. The loads and the files of media sets are of
-- another repository: `L` and `F`; `K` are the check values of a media set, and `C` is one of them.
pub mod Once
use arinc_615a_gui_tool_suit.Base.{
  ℕ, ◌+◌, ◌==◌, Bool, true, false, not, ◌&&◌, Option, none, some, List, [], ◌∷◌, ◌++◌, Bytes, map,
  if◌then◌else◌, Result, ok, err, Error,
}
use arinc_615a_gui_tool_suit.RawData.{RawData}
use arinc_615a_gui_tool_suit.Codes.{StatusCode, operation_accepted}
use arinc_615a_gui_tool_suit.Status.{UploadStatus}
use arinc_615a_gui_tool_suit.Files.Upload.RequestFile.{UploadLoad}
use arinc_615a_gui_tool_suit.Host
use arinc_615a_gui_tool_suit.Host.Operation.{protocol, do_abort}
use arinc_615a_gui_tool_suit.Host.Status.{remove, removed}
use arinc_615a_gui_tool_suit.Host.Upload.{start, load_list}
use arinc_615a_gui_tool_suit.Loader.Signals.{
  Action, host_action, start_transfer, answer_not_found, caught, handled,
}

-- `UploadOperation`: the data loader's operation once it is there, the loads, and the transfers.
pub record Upload (L K : Type 0) : Type 0 where
  pub operation : Option Host.Operation.Operation
  pub loads : List L
  pub check_values : K
  pub file_operations : List ℕ
  pub next_file : ℕ

-- `UploadOperationWizard`
pub record Wizard (L K : Type 0) : Type 0 where
  pub upload : Upload L K
  pub selected : List L
  pub load_list_transmitted : Bool

abbrev pub is_accepted : StatusCode → Bool
is_accepted operation_accepted = true
is_accepted _ = false

-- The protocol's abort of an operation that is there.
abbrev pub abort_protocol :
    {H F : Type 0}
    → Option Host.Operation.Operation
    → Option Host.Operation.Operation × List (Action H UploadStatus F)
abort_protocol none = (none, [])
abort_protocol (some op) =
    let (next, actions) = do_abort protocol op in (some next, map host_action actions)

-- An entry of the list that is transmitted, with the name and the part number of a load.
abbrev pub upload_load : {L : Type 0} → ⦃lib : RawData⦄ → (L → Bytes) → (L → Bytes) → L → UploadLoad
upload_load name part_number load = record {
  header_filename = name load;
  part_number = part_number load;
}

module _ {H L K F : Type 0} where
  -- `startOperation`, with what `uploadOperation` of the protocol makes or throws.
  abbrev pub start_operation :
      Result Host.Operation.Operation
      → Upload L K
      → Upload L K × Result (List (Action H UploadStatus F))
  start_operation (err e) u = (u, caught e)
  start_operation (ok operation) u =
      let (op, actions) = start operation in
      (record u { operation = some op }, ok (map host_action actions))

  module _ {C : Type 0} (find : List L → K → Bytes → Bytes → C → Option F)
      (is_regular_file : F → Bool) where
    -- `fileRequest`, with the search among the loads for the file name, the part number and the
    -- check value of the request.
    abbrev pub file_request :
        H → Bytes → Bytes → C → Upload L K → Upload L K × List (Action H UploadStatus F)
    file_request remote filename part_number check_value u =
        elim (find u.loads u.check_values filename part_number check_value) [
          | none ↦ (u, answer_not_found remote ∷ [])
          | some file ↦ if not (is_regular_file file) then (u, answer_not_found remote ∷ []) else (
            record u {
              file_operations = u.next_file ∷ u.file_operations;
              next_file = u.next_file + 1;
            },
            start_transfer u.next_file remote file ∷ [],
          )
        ]

  -- `fileCompleted`: whether the transfer was successful matters to the log only.
  abbrev pub file_completed : ℕ → Upload L K → Upload L K × List (Action H UploadStatus F)
  file_completed transfer u =
      let known : Upload L K = record u { file_operations = remove transfer u.file_operations } in
      if removed transfer u.file_operations == 1
      then (known, [])
      else (let (op, actions) = abort_protocol known.operation in
          (record known { operation = op }, actions))

  module _ ⦃lib : RawData⦄ (name part_number : L → Bytes) where
    -- `transmitLoads`, with the check values of the media set or what their look-up throws.
    unfoldable pub transmit_loads :
        Result K → List L → Upload L K → Upload L K × Result (List (Action H UploadStatus F))
    transmit_loads (err e) loads u = (record u { loads = loads }, caught e)
    transmit_loads (ok check_values) loads u = elim u.operation [
      | none ↦ (record u { loads = loads; check_values = check_values }, ok [])
      | some op ↦
          let (next, result) = load_list {H = H} (map (upload_load name part_number) loads) op in
          (
            record u { loads = loads; check_values = check_values; operation = some next },
            handled result,
          )
    ]

    -- An exception leaves the flag as it is.
    abbrev pub transmitted :
        Upload L K × Result (List (Action H UploadStatus F))
        → Wizard L K
        → Wizard L K × Result (List (Action H UploadStatus F))
    transmitted (u, ok actions) w =
        (record w { upload = u; load_list_transmitted = true }, ok actions)
    transmitted (u, err e) w = (record w { upload = u }, err e)

    -- `operationStatus` of the wizard.
    unfoldable pub operation_status :
        Result K → UploadStatus → Wizard L K → Wizard L K × Result (List (Action H UploadStatus F))
    operation_status check_values status w =
        if is_accepted status.status.code && not w.load_list_transmitted
        then transmitted (transmit_loads check_values w.selected w.upload) w
        else (w, ok [])
