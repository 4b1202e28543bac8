-- ===== src/Exchange/Initialization.antt =====
-- The request that begins an operation, from the data loader to the target, and its refusal.
use arinc_615a_gui_tool_suit.Base.{
  ℕ, ◌≡◌, refl, ap, true, false, Option, none, some, [], ◌∷◌, ok, Bytes,
}
use arinc_615a_gui_tool_suit.RawData.{RawData}
use arinc_615a_gui_tool_suit.Codes.{
  arinc_615a_34, AcceptanceCode, denied, not_supported, StatusCode, operation_not_accepted,
  operation_not_supported,
}
use arinc_615a_gui_tool_suit.TargetId.{is_valid}
use arinc_615a_gui_tool_suit.Files.ProtocolFilename.{
  FileType, ProtocolFilename, text_of, is_named, load_configuration_initialization,
  upload_initialization, media_defined_download_initialization,
  operator_defined_download_initialization,
}
use arinc_615a_gui_tool_suit.Files.ProtocolFilename.Text.{
  filename_of-text_of, is_protocol_filename_iff,
}
use arinc_615a_gui_tool_suit.Files.InitializationFile
use arinc_615a_gui_tool_suit.Files.InitializationFile.RoundTrip.{
  IsStorable, decode-encode_initialization,
}
use arinc_615a_gui_tool_suit.Tftp.Client.{successful}
use arinc_615a_gui_tool_suit.Target.Operation.{read}
use arinc_615a_gui_tool_suit.Target.Protocol.{
  OperationType, operation_type, Protocol, call_new_operation, received_tftp_request,
  handle_initialisation_file, ErrorOperation, start_error, send_initialization,
}
use arinc_615a_gui_tool_suit.Host
use arinc_615a_gui_tool_suit.Host.Operation.{
  initialise, start_server, request_initialization, initialisation_file_completed,
  initialisation_decoded, respond, finished, call_initialisation_response, call_finished,
  cancel_timer, stop_server,
}

-- The types of the initialization files are valid.
initialization-named :
    {operation : OperationType} (f : ProtocolFilename)
    → operation_type f.type ≡ some operation
    → is_valid f.target_id ≡ true
    → is_named f ≡ true
initialization-named {operation} f known valid = go f.type known
  where
    go :
        (type : FileType)
        → operation_type type ≡ some operation
        → is_named (record { target_id = f.target_id; type = type }) ≡ true
    go load_configuration_initialization known = rw valid
    go upload_initialization known = rw valid
    go media_defined_download_initialization known = rw valid
    go operator_defined_download_initialization known = rw valid
    go _ known = cc

-- A data loader with a valid target identifier begins an operation of a type: it starts its server
-- and requests the initialization file of this type. The target that receives the request, whatever
-- operation is registered, calls its handler for a new operation, of the same type and for the same
-- target identifier, with the port of the request if the version is the one that has it.
pub initialise-reaches-target :
    {H G S O : Type 0} (remote : H) (port : Option ℕ) (protocol : Protocol O) (type : FileType)
    (operation : OperationType) (host : Host.Operation.Operation)
    → operation_type type ≡ some operation
    → is_valid host.target_id ≡ true
    → let filename = text_of (record { target_id = host.target_id; type = type }) in
      ((initialise {H = G} {S = S} type host).1
        ≡ start_server ∷ request_initialization type filename ∷ [])
      × (received_tftp_request {H = H} remote read filename port protocol
          ≡ call_new_operation operation remote
              (elim protocol.protocol_version [ arinc_615a_34 ↦ port | _ ↦ none ])
              host.target_id
            ∷ [])
unfolding received_tftp_request handle_initialisation_file initialise
initialise-reaches-target remote port protocol type operation host known valid =
    let f : ProtocolFilename = record { target_id = host.target_id; type = type } in
    let named = initialization-named f known valid in
    let name = (is_protocol_filename_iff (text_of f)).1 (f, named, refl) in
    let same = ap (λ g. g.target_id) (filename_of-text_of f named) in
    (refl, rw (name, filename_of-text_of f named) (rw known (rw same)))

-- The codes of a refusal, and what the data loader finishes with.
pub data Refuses : AcceptanceCode → StatusCode → Type 0 where
  denies : Refuses denied operation_not_accepted
  unsupported : Refuses not_supported operation_not_supported

abbrev response_file : ErrorOperation → InitializationFile.InitializationFile
response_file op = record {
  protocol_version = op.protocol_version;
  response = record { code = op.status; description = op.description };
}

module _ ⦃lib : RawData⦄ {G S : Type 0} where
  refusal-finished :
      {status : AcceptanceCode} {code : StatusCode} (file : InitializationFile.InitializationFile)
      (host : Host.Operation.Operation)
      → file.response.code ≡ status
      → Refuses status code
      → respond {H = G} {S = S} file host
        ≡ (host, call_finished code file.response.description ∷ cancel_timer ∷ stop_server ∷ [])
  unfolding respond finished
  refusal-finished file host e denies = rw e
  refusal-finished file host e unsupported = rw e

  -- The error operation of a target, with a code that refuses the request and an initialization file
  -- that the format can hold, sends this file. The data loader that receives it reports the response,
  -- and finishes with the status for the code and with the same description; the initialization is
  -- over, and nothing else has changed.
  pub refusal-reaches-host :
      {code : StatusCode} (op : ErrorOperation) (host : Host.Operation.Operation)
      → Refuses op.status code
      → IsStorable (response_file op)
      → (raw_file : Bytes) × (start_error op
          ≡ (record op { initialisation_operation = true }, ok (send_initialization raw_file ∷ [])))
        × (initialisation_file_completed {H = G} {S = S} successful raw_file host ≡ (
          record host { initialisation_operation = false },
          ok (
              call_initialisation_response (response_file op).response
              ∷ call_finished code op.description
              ∷ cancel_timer
              ∷ stop_server
              ∷ []),
        ))
  unfolding start_error initialisation_file_completed initialisation_decoded
  refusal-reaches-host op host refuses stored =
      let (raw_file, written, received) = decode-encode_initialization (response_file op) stored in
      (
        raw_file,
        rw (written, start_error),
        rw received (
            rw (
              refusal-finished (response_file op) (record host { initialisation_operation = false })
                refl refuses)),
      )
