-- ===== src/Host/Operation.antt =====
-- What the operations of a data loader share: the base class
-- (lib/arinc_615a/host/implementation/OperationImpl.cpp). The operations of TFTP, its server, the
-- timer and the handler that the user of the class registers are outside: their calls are actions.
use arinc_615a_gui_tool_suit.Base.{
  ℕ, ◌==◌, Bool, true, false, not, ◌&&◌, Option, none, some, List, [], ◌∷◌, Bytes, codes, ltb,
  same_text, if◌then◌else◌, Result, ok, err, Error, arinc_615a_exception,
}
use arinc_615a_gui_tool_suit.RawData.{RawData}
use arinc_615a_gui_tool_suit.Codes.{
  Version, StatusCode, operation_aborted_by_dlp, operation_aborted_by_operator,
  operation_not_accepted, operation_not_supported, accepted, denied, not_supported, deferred,
}
use arinc_615a_gui_tool_suit.Files.InitializationFile.{InitializationFile, InitializationResponse}
use arinc_615a_gui_tool_suit.Files.InitializationFile
use arinc_615a_gui_tool_suit.Files.ProtocolFilename.{
  FileType, text_of, filename_of, is_protocol_filename,
}
use arinc_615a_gui_tool_suit.Files.Download.ListFile.{FileInformation}
use arinc_615a_gui_tool_suit.Files.Information.LoadConfigurationList.{TargetHardware}
use arinc_615a_gui_tool_suit.Tftp.Options.{Arinc615aOptions, CheckValues}
use arinc_615a_gui_tool_suit.TargetId.{TargetId}
use arinc_615a_gui_tool_suit.Tftp.Client.{TransferStatus, successful}
use arinc_615a_gui_tool_suit.Target.Operation.{
  TftpError, file_not_found, TimerResult, expired, operation_cancelled, timer_error,
}

pub data AbortReason : Type 0 where
  no_abort operator protocol : AbortReason

-- Addresses are `H`, the status of a status file is `S`. A reception of a status file has a number.
pub data Action (H S : Type 0) : Type 0 where
  -- The TFTP server and its operations: an ABORT message, an error, a reception.
  start_server stop_server : Action H S
  send_abort : H → StatusCode → Action H S
  answer_error : H → TftpError → Action H S
  receive_status : H → ℕ → Action H S
  receive_list : H → Action H S
  abort_list : Action H S
  -- The TFTP client: the request of the initialization file, and of the transfer of a file.
  request_initialization : FileType → Bytes → Action H S
  abort_initialization : Action H S
  send_file : FileType → Bytes → Bytes → Action H S
  -- The timer, in seconds.
  start_timer : ℕ → Action H S
  cancel_timer : Action H S
  -- The handler.
  call_initialisation_deferred : ℕ → Action H S
  call_initialisation_response : InitializationResponse → Action H S
  call_status : S → Action H S
  call_file_request : H → Bytes → Action H S
  call_downloading_list : List FileInformation → Action H S
  call_target_information : List TargetHardware → Bool → Action H S
  call_finished : StatusCode → Bytes → Action H S
  -- An exception that leaves a member function behind other actions.
  throw_error : Error → Action H S

-- `sent` is the flag of the class that its list, request or answer was transmitted.
pub record Operation : Type 0 where
  pub protocol_version : Version
  pub target_id : TargetId
  pub dlp_timeout : ℕ
  pub port_option : Bool
  pub abort_reason : AbortReason
  pub initialisation_operation : Bool
  pub status_operations : List ℕ
  pub next_operation : ℕ
  pub list_operation : Bool
  pub file_operation : Bool
  pub sent : Bool
  pub wait_for_final_status : Bool

-- The codes for the two reasons, in both `switch` statements.
abbrev pub reason_code : AbortReason → StatusCode
reason_code operator = operation_aborted_by_operator
reason_code protocol = operation_aborted_by_dlp
reason_code no_abort = operation_aborted_by_dlp

abbrev pub is_no_abort : AbortReason → Bool
is_no_abort no_abort = true
is_no_abort _ = false

-- `operator ==` of target identifiers.
abbrev pub same_target : TargetId → TargetId → Bool
same_target t u = same_text t.thw_id u.thw_id && same_text t.position u.position

abbrev pub max : ℕ → ℕ → ℕ
max a b = if ltb a b then b else a

module _ {H S : Type 0} where
  -- `doAbort`
  unfoldable pub do_abort : AbortReason → Operation → Operation × List (Action H S)
  do_abort reason op = if not (is_no_abort op.abort_reason) then (op, []) else (
    record op { abort_reason = reason },
    if op.initialisation_operation then abort_initialization ∷ [] else [],
  )

  -- `finished`
  unfoldable pub finished : StatusCode → Bytes → Operation → Operation × List (Action H S)
  finished status description op =
      (op, call_finished status description ∷ cancel_timer ∷ stop_server ∷ [])

  -- `doTerminate`
  abbrev pub do_terminate : AbortReason → Operation → Operation × List (Action H S)
  do_terminate reason op =
      let (next, actions) = finished (reason_code reason) (codes "Terminate Request") op in
      (next, if op.initialisation_operation then abort_initialization ∷ actions else actions)

  -- `triggerDlpTimeout`
  abbrev pub trigger_dlp_timeout : ℕ → Operation → List (Action H S)
  trigger_dlp_timeout exception_time op = start_timer (max exception_time op.dlp_timeout) ∷ []

  -- `isAborted`: nothing, or what is done about the abort.
  unfoldable pub is_aborted : H → Operation → Option (Operation × List (Action H S))
  is_aborted remote op =
      if is_no_abort op.abort_reason
      then none
      else some (
        record op { abort_reason = no_abort },
        send_abort remote (reason_code op.abort_reason) ∷ trigger_dlp_timeout 0 op,
      )

  -- `checkRequest`: nothing, or the answer to a file for another target.
  unfoldable pub check_request : Bytes → H → Operation → Option (List (Action H S))
  check_request filename remote op =
      if is_protocol_filename filename
        && not (same_target (filename_of filename).target_id op.target_id)
      then some (answer_error remote file_not_found ∷ [])
      else none

  -- `initialise`
  unfoldable pub initialise : FileType → Operation → Operation × List (Action H S)
  initialise type op = (
    record op { initialisation_operation = true },
    start_server
        ∷ request_initialization type (text_of (record { target_id = op.target_id; type = type }))
        ∷ [],
  )

  -- `timerHandler`
  pub timer_handler : TimerResult → Operation → Operation × List (Action H S)
  timer_handler operation_cancelled op = (op, [])
  timer_handler timer_error op = finished operation_aborted_by_dlp (codes "Internal timer error") op
  timer_handler expired op = finished operation_aborted_by_dlp (codes "DLP Timeout") op

  -- `initialisationFileDeferred`
  abbrev pub initialisation_file_deferred : ℕ → Operation → Operation × List (Action H S)
  initialisation_file_deferred wait_time op = (op, call_initialisation_deferred wait_time ∷ [])

  -- The `switch` over the acceptance code; the version is stored if the operation is accepted.
  unfoldable pub respond : InitializationFile → Operation → Operation × List (Action H S)
  respond file op = elim file.response.code [
    | accepted ↦ (record op { protocol_version = file.protocol_version }, trigger_dlp_timeout 0 op)
    | denied ↦ finished operation_not_accepted file.response.description op
    | not_supported ↦ finished operation_not_supported file.response.description op
    | deferred ↦ finished operation_aborted_by_dlp (codes "unknown status code") op
  ]

  -- The `try` block of `initialisationFileCompleted` behind the decoder, and its handler.
  unfoldable pub initialisation_decoded :
      Result InitializationFile → Operation → Operation × Result (List (Action H S))
  initialisation_decoded (ok file) op =
      let (next, actions) = respond file op in
      (next, ok (call_initialisation_response file.response ∷ actions))
  initialisation_decoded (err arinc_615a_exception) op =
      let (next, actions) =
        finished operation_aborted_by_dlp (codes "Initialisation File could not be received") op in
      (next, ok actions)
  initialisation_decoded (err other) op = (op, err other)

  module _ ⦃lib : RawData⦄ where
    -- `initialisationFileCompleted`
    unfoldable pub initialisation_file_completed :
        TransferStatus → Bytes → Operation → Operation × Result (List (Action H S))
    initialisation_file_completed successful raw_file op =
        initialisation_decoded (InitializationFile.decode raw_file)
          (record op { initialisation_operation = false })
    initialisation_file_completed _ raw_file op =
        let (next, actions) =
          finished operation_aborted_by_dlp (codes "Initialisation File could not be received")
            (record op { initialisation_operation = false }) in
        (next, ok actions)

-- The options of the request that `initialise` makes, with the port of the server.
abbrev pub initialisation_options :
    {C : Type 0} → CheckValues C → ℕ → Operation → Arinc615aOptions C
initialisation_options values server_port op = record {
  port = if op.port_option then some server_port else none;
  part_number = [];
  checksum = values.no_check_value;
}

-- `initialisationFileOptionsNegotiation`, with the port of the server and the test for the absence of
-- a check value.
unfoldable pub initialisation_options_negotiation :
    {C : Type 0} → (C → Bool) → ℕ → Arinc615aOptions C → Operation → Bool
initialisation_options_negotiation no_check_value server_port options op =
    if not (no_check_value options.checksum) then false else (elim options.port [
      | some port ↦ op.port_option && (port == server_port)
      | none ↦ not op.port_option
    ])
