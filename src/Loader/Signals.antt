-- ===== src/Loader/Signals.antt =====
-- What the operations of the application (lib/arinc_615a_dla_qt/operations) do: calls of the data
-- loader's operation, the signals that they emit, message boxes, and transfers of files.
use arinc_615a_gui_tool_suit.Base.{
  ℕ, Option, none, some, List, [], ◌∷◌, Bytes, codes, map, Result, ok, err, Error, out_of_range,
}
use arinc_615a_gui_tool_suit.Codes.{StatusCode, operation_aborted_by_dlp}
use arinc_615a_gui_tool_suit.Files.InitializationFile.{InitializationResponse}
use arinc_615a_gui_tool_suit.Host
use arinc_615a_gui_tool_suit.Host.Operation.{
  AbortReason, operator, do_abort, call_initialisation_deferred, call_initialisation_response,
  call_status, call_finished,
}

-- Addresses are `H`, the status is `S`, local files are `F`. A transfer has a number.
pub data Action (H S F : Type 0) : Type 0 where
  host_action : Host.Operation.Action H S → Action H S F
  operation_deferred : ℕ → Action H S F
  operation_initialised : InitializationResponse → Action H S F
  operation_finished : StatusCode → Bytes → Action H S F
  received_status : S → Action H S F
  show_error : Action H S F
  start_transfer : ℕ → H → F → Action H S F
  answer_not_found : H → Action H S F

module _ {H S F : Type 0} where
  -- `catch ( const boost::exception & )`: the exceptions of the libraries are such, and
  -- `std::out_of_range` is not.
  abbrev pub caught : Error → Result (List (Action H S F))
  caught out_of_range = err out_of_range
  caught _ = ok (
      show_error
      ∷ operation_finished operation_aborted_by_dlp (codes "Error During Operation")
      ∷ [])

  abbrev pub handled : Result (List (Host.Operation.Action H S)) → Result (List (Action H S F))
  handled (ok actions) = ok (map host_action actions)
  handled (err e) = caught e

  -- `abortOperation`
  pub abort_operation :
      Option Host.Operation.Operation → Option Host.Operation.Operation × List (Action H S F)
  abort_operation none = (none, [])
  abort_operation (some op) =
      let (next, actions) = do_abort operator op in (some next, map host_action actions)

  -- What the member functions of the handler emit that an upload and an information operation have
  -- in common: `initialisationDeferred`, `initialisationResponse`, `finished` and `status`.
  abbrev pub emitted : Host.Operation.Action H S → List (Action H S F)
  emitted (call_initialisation_deferred wait_time) = operation_deferred wait_time ∷ []
  emitted (call_initialisation_response response) = operation_initialised response ∷ []
  emitted (call_finished code description) = operation_finished code description ∷ []
  emitted (call_status status) = received_status status ∷ []
  emitted _ = []
