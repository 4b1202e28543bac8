-- ===== src/Host/Information.antt =====
-- The information operation of a data loader
-- (lib/arinc_615a/host/implementation/InformationOperationImpl.cpp). Check values are of another
-- repository: `fits` tells whether that of the file agrees with the one that the target gave.
use arinc_615a_gui_tool_suit.Base.{
  ℕ, Bool, true, false, not, none, some, List, [], ◌∷◌, ◌++◌, Bytes, codes, if◌then◌else◌, continue,
  Result, ok, err, arinc_615a_exception,
}
use arinc_615a_gui_tool_suit.RawData.{RawData}
use arinc_615a_gui_tool_suit.Codes.{operation_completed, operation_aborted_by_dlp}
use arinc_615a_gui_tool_suit.Status.{Status}
use arinc_615a_gui_tool_suit.Files.ProtocolFilename.{
  filename_of, same_type, load_configuration_list, load_configuration_status,
  load_configuration_initialization,
}
use arinc_615a_gui_tool_suit.Files.Information.StatusFile
use arinc_615a_gui_tool_suit.Files.Information.LoadConfigurationList.{LoadConfigurationList}
use arinc_615a_gui_tool_suit.Files.Information.LoadConfigurationList
use arinc_615a_gui_tool_suit.Target.Operation.{
  RequestType, read, write, illegal_tftp_operation, file_not_found,
}
use arinc_615a_gui_tool_suit.Host.Operation.{
  Operation, Action, AbortReason, protocol, answer_error, receive_list, abort_list,
  call_target_information, do_abort, do_terminate, finished, trigger_dlp_timeout, initialise,
  check_request,
}
use arinc_615a_gui_tool_suit.Host.Status.{
  StatusSource, status_file_request, status_file_completed_once,
}

module _ ⦃lib : RawData⦄ where
  -- A first status means that there is a final one.
  abbrev pub information_source : StatusSource Status
  information_source = record {
    decode_status = λ raw_file. continue (StatusFile.decode raw_file) (λ file. ok file.status);
    overall = λ s. s;
    mark = λ op. record op { wait_for_final_status = true };
  }

abbrev pub is_write : RequestType → Bool
is_write read = false
is_write write = true

module _ {H : Type 0} where
  -- `start`
  pub start : Operation → Operation × List (Action H Status)
  start op =
      initialise load_configuration_initialization (record op { wait_for_final_status = false })

  -- `abort` and `terminate`
  abbrev pub abort : AbortReason → Operation → Operation × List (Action H Status)
  abort = do_abort

  abbrev pub terminate : AbortReason → Operation → Operation × List (Action H Status)
  terminate = do_terminate

  -- `statusFileRequest`
  abbrev pub information_status_request : H → Operation → Operation × List (Action H Status)
  information_status_request = status_file_request

  -- `listFileRequest`: a reception that is active is aborted.
  unfoldable pub list_file_request : H → Operation → Operation × List (Action H Status)
  list_file_request remote op = (
    record op { list_operation = true },
    (if op.list_operation then abort_list ∷ [] else []) ++ receive_list remote ∷ [],
  )

  -- What a list that could not be received or decoded leads to.
  unfoldable pub list_failed : Operation → Operation × List (Action H Status)
  list_failed op =
      if not op.wait_for_final_status
      then finished operation_aborted_by_dlp (codes "Invalid Protocol file") op
      else abort protocol op

  -- The `try` block of `listFileCompleted` behind the decoder, and its handler; the version of the
  -- file is only compared for the log.
  unfoldable pub list_decoded :
      Bool → Result LoadConfigurationList → Operation → Operation × Result (List (Action H Status))
  list_decoded fits (ok file) op =
      let (next, actions) =
        if not op.wait_for_final_status
        then finished operation_completed [] op
        else (op, trigger_dlp_timeout 0 op) in
      (next, ok (call_target_information file.targets_hardware fits ∷ actions))
  list_decoded fits (err arinc_615a_exception) op =
      let (next, actions) = list_failed op in (next, ok actions)
  list_decoded fits (err other) op = (op, err other)

  module _ ⦃lib : RawData⦄ where
    -- `listFileCompleted`
    unfoldable pub list_file_completed :
        (Bytes → Bool) → Bool → Bytes → Operation → Operation × Result (List (Action H Status))
    list_file_completed fits false raw_file op =
        let (next, actions) = list_failed (record op { list_operation = false }) in
        (next, ok actions)
    list_file_completed fits true raw_file op =
        list_decoded (fits raw_file)
          (LoadConfigurationList.decode
            (record { protocol_version = op.protocol_version; targets_hardware = [] }) raw_file)
          (record op { list_operation = false })

    -- `statusFileCompleted`
    abbrev pub information_status_completed :
        ℕ → Bool → Bytes → Operation → Operation × Result (List (Action H Status))
    information_status_completed = status_file_completed_once information_source

  -- The `switch` over the type of the file.
  unfoldable pub file_requested : H → Bytes → Operation → Operation × List (Action H Status)
  file_requested remote filename op =
      if same_type (filename_of filename).type load_configuration_list
      then list_file_request remote op
      else if same_type (filename_of filename).type load_configuration_status
      then information_status_request remote op
      else (op, answer_error remote file_not_found ∷ [])

  -- `tftpRequest`: a request that does not write is answered by an error, and handled nevertheless.
  unfoldable pub tftp_request :
      H → RequestType → Bytes → Operation → Operation × List (Action H Status)
  tftp_request remote type filename op = elim (check_request {S = Status} filename remote op) [
    | some actions ↦ (op, actions)
    | none ↦
        let (next, actions) = file_requested remote filename op in
        (
          next,
          (if is_write type then [] else answer_error remote illegal_tftp_operation ∷ [])
              ++ actions,
        )
  ]
