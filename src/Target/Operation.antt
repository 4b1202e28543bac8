-- ===== src/Target/Operation.antt =====
-- What the operations of a target share: the base class
-- (lib/arinc_615a/target/implementation/OperationImpl.cpp), and the status transmission, which
-- every class repeats for its own status. The operations of TFTP, the timer and the handler that
-- the user of the class registers are outside: their calls are actions.
use arinc_615a_gui_tool_suit.Base.{
  ◌≡◌, ℕ, Bool, true, false, Option, none, some, List, [], ◌∷◌, Bytes, codes, if◌then◌else◌, Result,
  ok, err, Error, arinc_615a_exception,
}
use arinc_615a_gui_tool_suit.RawData.{RawData}
use arinc_615a_gui_tool_suit.Tftp.Options.{Arinc615aOptions, CheckValues}
use arinc_615a_gui_tool_suit.Codes.{Version, FinalStatus, AbortRequest, accepted}
use arinc_615a_gui_tool_suit.Status.{Status}
use arinc_615a_gui_tool_suit.Files.InitializationFile.{InitializationFile}
use arinc_615a_gui_tool_suit.Files.InitializationFile
use arinc_615a_gui_tool_suit.Files.ProtocolFilename.{
  FileType, text_of, load_configuration_status, upload_status, download_status,
}
use arinc_615a_gui_tool_suit.Files.Upload.RequestFile.{UploadLoad}
use arinc_615a_gui_tool_suit.TargetId.{TargetId}

pub data RequestType : Type 0 where
  read write : RequestType

-- The TFTP errors that the code answers with.
pub data TftpError : Type 0 where
  illegal_tftp_operation file_not_found : TftpError

-- What the timer calls its handler with.
pub data TimerResult : Type 0 where
  expired operation_cancelled timer_error : TimerResult

-- The member function that a transfer calls when it is done; that for a status file is bound to the
-- status that was sent.
pub data Completion (S : Type 0) : Type 0 where
  status_file_completed : S → Completion S
  downloading_list_completed target_information_completed : Completion S

-- Addresses are `H`, the status is `S`.
pub data Action (H S : Type 0) : Type 0 where
  -- Operations of TFTP: the initialization file for a read request, a protocol file that is written
  -- to the host (its type, `handleAbort`, its name and its bytes), the reception of a file, and the
  -- answer with an error.
  send_initialization : Bytes → Action H S
  send_file : FileType → Bool → Bytes → Bytes → Completion S → Action H S
  receive_file : FileType → Action H S
  answer_error : H → TftpError → Action H S
  -- The status timer, with no time to wait or with that of the configuration.
  trigger trigger_timer cancel_timer : Action H S
  -- The handler.
  call_initialised : Action H S
  call_status : S → Action H S
  call_abort_request : AbortRequest → Action H S
  call_finished : FinalStatus → Bytes → Action H S
  call_load_list : List UploadLoad → Action H S
  call_downloading_request : List Bytes → Bytes → Action H S
  call_downloading_answer : List Bytes → Action H S
  -- An exception that leaves a member function behind other actions.
  throw_error : Error → Action H S

-- The classes of a status: what they inherit from `Status`, and their file.
pub record StatusFormat (S : Type 0) : Type 0 where
  pub overall : S → Status
  pub with_overall : Status → S → S
  pub status_type : FileType
  pub encode_status : Version → S → Result Bytes
  pub overall-with_overall : (status : Status) (s : S) → overall (with_overall status s) ≡ status

pub record Operation (H S : Type 0) : Type 0 where
  pub protocol_version : Version
  pub target_id : TargetId
  pub host_address : Option H
  pub host_port : ℕ
  pub status : S
  pub status_operation : Bool
  pub file_operation : Bool
  pub initialisation_operation : Bool

-- `protocolFileOptionsNegotiation`: `same` compares check values.
abbrev pub protocol_file_options_negotiation :
    {C : Type 0} → (C → C → Bool) → C → C → Arinc615aOptions C → Bool
protocol_file_options_negotiation same no_check_value provided options = elim options.port [
  | some port ↦ false
  | none ↦ elim options.part_number [
    | c ∷ part_number ↦ false
    | [] ↦
        if same no_check_value provided
        then same no_check_value options.checksum
        else same provided options.checksum
  ]
]

-- The options that `sendInitFile` answers with.
abbrev pub initialisation_answer : {C : Type 0} → CheckValues C → Option ℕ → Arinc615aOptions C
initialisation_answer values port = record {
  port = port;
  part_number = [];
  checksum = values.no_check_value;
}

-- `fileOptionNegotiation`, with the handler of the user.
abbrev pub file_option_negotiation : {C : Type 0} → (Bytes → C → Bool) → Arinc615aOptions C → Bool
file_option_negotiation handler options = elim options.port [
  | some port ↦ false
  | none ↦ handler options.part_number options.checksum
]

-- The file types for which `protocolFileOperation` turns on the handling of aborts.
abbrev pub handles_abort : FileType → Bool
handles_abort load_configuration_status = true
handles_abort upload_status = true
handles_abort download_status = true
handles_abort _ = false

module _ {H S : Type 0} where
  -- What an exception that leaves a member function does not do.
  abbrev pub actions_of : Result (List (Action H S)) → List (Action H S)
  actions_of (ok actions) = actions
  actions_of (err e) = []

  -- A function that throws nothing.
  abbrev pub sound : Operation H S × List (Action H S) → Operation H S × Result (List (Action H S))
  sound (op, actions) = (op, ok actions)

module _ {H S : Type 0} where
  -- `protocolFileOperation`, and the request of what it makes.
  unfoldable pub protocol_file_operation :
      FileType → Completion S → Bytes → Operation H S → Action H S
  protocol_file_operation type completion raw_file op =
      send_file type (handles_abort type)
        (text_of (record { target_id = op.target_id; type = type })) raw_file completion

  -- `finalise`
  unfoldable pub finalise : FinalStatus → Bytes → Operation H S → Operation H S × List (Action H S)
  finalise final description op = (op, call_finished final description ∷ cancel_timer ∷ [])

  module _ ⦃lib : RawData⦄ where
    -- `doStart` and `sendInitFile`, which catches the exceptions of the library.
    unfoldable pub start : H → Option ℕ → Operation H S → Operation H S × Result (List (Action H S))
    start host port op =
        let addressed : Operation H S = record op {
          host_address = some host;
          host_port = elim port [ none ↦ op.host_port | some p ↦ p ];
        } in
        elim (InitializationFile.encode (record {
          protocol_version = op.protocol_version;
          response = record { code = accepted; description = [] };
        })) [
          | ok raw_file ↦ (
            record addressed { initialisation_operation = true },
            ok (send_initialization raw_file ∷ []),
          )
          | err arinc_615a_exception ↦ (addressed, ok [])
          | err other ↦ (addressed, err other)
        ]

  -- `sendInitFileComplete`
  unfoldable pub send_init_file_complete : Bool → Operation H S → Operation H S × List (Action H S)
  send_init_file_complete true op =
      (record op { initialisation_operation = false }, trigger_timer ∷ call_initialised ∷ [])
  send_init_file_complete false op =
      finalise FinalStatus.aborted_by_target_hardware
        (codes "Initialisation file transmission failed")
        (record op { initialisation_operation = false })
