-- ===== src/Target/Protocol.antt =====
-- What a target does about the requests that its TFTP server receives
-- (lib/arinc_615a/target/implementation/ProtocolImpl.cpp), and the operation that refuses a request
-- (ErrorOperationImpl.cpp). The start and the stop of the server are left to it.
use arinc_615a_gui_tool_suit.Base.{
  ℕ, Bool, true, false, Option, none, some, List, [], ◌∷◌, Bytes, if◌then◌else◌, Result, ok, err,
}
use arinc_615a_gui_tool_suit.RawData.{RawData}
use arinc_615a_gui_tool_suit.Codes.{Version, arinc_615a_34, AcceptanceCode}
use arinc_615a_gui_tool_suit.TargetId.{TargetId}
use arinc_615a_gui_tool_suit.Files.InitializationFile
use arinc_615a_gui_tool_suit.Files.ProtocolFilename.{
  FileType, is_protocol_filename, filename_of, load_configuration_initialization,
  upload_initialization, media_defined_download_initialization,
  operator_defined_download_initialization,
}
use arinc_615a_gui_tool_suit.Target.Operation.{RequestType, read, write, TftpError, file_not_found}

-- `OperationType`
pub data OperationType : Type 0 where
  invalid_operation information upload : OperationType
  media_defined_download operator_defined_download : OperationType

-- The `switch` over the types of initialization files.
abbrev pub operation_type : FileType → Option OperationType
operation_type load_configuration_initialization = some information
operation_type upload_initialization = some upload
operation_type media_defined_download_initialization = some media_defined_download
operation_type operator_defined_download_initialization = some operator_defined_download
operation_type _ = none

-- Only a request to read an initialization file asks for a new operation.
abbrev pub requested_operation : RequestType → FileType → Option OperationType
requested_operation read type = operation_type type
requested_operation write type = none

-- Addresses are `H`, operations are `O`; the registered operation may be gone.
pub record Protocol (O : Type 0) : Type 0 where
  pub protocol_version : Version
  pub operation : Option O

pub data Action (H O : Type 0) : Type 0 where
  -- `newOperationRequestHandler`
  call_new_operation : OperationType → H → Option ℕ → TargetId → Action H O
  -- `tftpRequest` of the registered operation.
  redirect : O → H → RequestType → Bytes → Action H O
  answer_error : H → TftpError → Action H O

-- `informationOperation`, `uploadOperation` and so on register the operation that they make.
abbrev pub register : {O : Type 0} → O → Protocol O → Protocol O
register operation protocol = record protocol { operation = some operation }

-- The port is handed on in one version only.
abbrev pub port_of : {O : Type 0} → Protocol O → Option ℕ → Option ℕ
port_of protocol port = elim protocol.protocol_version [ arinc_615a_34 ↦ port | _ ↦ none ]

module _ {H O : Type 0} where
  -- `handleInitialisationFile`
  unfoldable pub handle_initialisation_file :
      OperationType → H → Bytes → Option ℕ → Protocol O → List (Action H O)
  handle_initialisation_file operation remote filename port protocol =
      call_new_operation operation remote (port_of protocol port) (filename_of filename).target_id
      ∷ []

  -- `receivedTftpRequest`, with the port of the options of the client.
  unfoldable pub received_tftp_request :
      H → RequestType → Bytes → Option ℕ → Protocol O → List (Action H O)
  received_tftp_request remote type filename port protocol =
      if is_protocol_filename filename
      then (elim (requested_operation type (filename_of filename).type) [
        | some operation ↦ handle_initialisation_file operation remote filename port protocol
        | none ↦ elim protocol.operation [
          | none ↦ answer_error remote file_not_found ∷ []
          | some operation ↦ redirect operation remote type filename ∷ []
        ]
      ])
      else answer_error remote file_not_found ∷ []

-- `ErrorOperationImpl`, with its configuration.
pub record ErrorOperation : Type 0 where
  pub protocol_version : Version
  pub status : AcceptanceCode
  pub description : Bytes
  pub completion_handler : Bool
  pub initialisation_operation : Bool

pub data ErrorAction : Type 0 where
  send_initialization : Bytes → ErrorAction
  call_completed : ErrorAction

module _ ⦃lib : RawData⦄ where
  -- `start`: an exception of the encoder leaves it, behind the set-up of the transfer.
  unfoldable pub start_error : ErrorOperation → ErrorOperation × Result (List ErrorAction)
  start_error op =
      let started : ErrorOperation = record op { initialisation_operation = true } in
      elim (InitializationFile.encode (record {
        protocol_version = op.protocol_version;
        response = record { code = op.status; description = op.description };
      })) [
        | ok raw_file ↦ (started, ok (send_initialization raw_file ∷ []))
        | err e ↦ (started, err e)
      ]

-- `initialisationFileCompleted`
abbrev pub error_completed : Bool → ErrorOperation → ErrorOperation × List ErrorAction
error_completed true op = (
  record op { initialisation_operation = false },
  if op.completion_handler then call_completed ∷ [] else [],
)
error_completed false op = (record op { initialisation_operation = false }, [])
