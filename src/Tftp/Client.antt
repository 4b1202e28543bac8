-- ===== src/Tftp/Client.antt =====
-- The TFTP client operation, which retries, waits and takes an abort
-- (lib/arinc_615a/tftp/clients/implementation/OperationImpl.cpp). The operation of the TFTP library
-- that it starts, its timer and the registered handlers are outside: their calls are actions.
pub mod Runs
pub mod Limits
pub mod Messages
pub mod Refinement
use arinc_615a_gui_tool_suit.Base.{
  ℕ, ◌+◌, ◌%◌, ◌^◌, Bool, true, false, Option, none, some, List, [], ◌∷◌, ◌++◌, Bytes, ltb,
  if◌then◌else◌,
}
use arinc_615a_gui_tool_suit.Codes.{StatusCode}
use arinc_615a_gui_tool_suit.ErrorMessage.{
  MessageType, abort, wait, message_type, abort_status, wait_time,
}

-- What the TFTP library reports (`::Tftp::TransferStatus`): the values that the code tells apart.
pub data Outcome : Type 0 where
  successful aborted request_error other_error : Outcome

pub data TransferStatus : Type 0 where
  successful communication_error request_error option_negotiation_error : TransferStatus
  transfer_error aborted operation_aborted_by_dlp operation_aborted_by_operator : TransferStatus
  invalid : TransferStatus

-- What the wait timer calls its handler with.
pub data TimerResult : Type 0 where
  elapsed operation_cancelled timer_error : TimerResult

-- The error codes of TFTP are `E`.
module _ (E : Type 0) where
  abbrev pub ErrorInformation : Type 0
  ErrorInformation = Option (E × Bytes)

  -- The object: `operation` tells whether `operationV` holds an operation, `waiting` whether a
  -- handler is registered with the timer, the last two whether the user registered handlers.
  pub record Client : Type 0 where
    pub dlp_retries : ℕ
    pub handle_abort : Bool
    pub retries : ℕ
    pub operation : Bool
    pub error_information : Option (E × Bytes)
    pub waiting : Bool
    pub completion_handler : Bool
    pub deferred_handler : Bool

  -- What the object calls: `request_transfer` makes a TFTP operation and requests it.
  pub data Action : Type 0 where
    request_transfer cancel_wait abort_transfer : Action
    graceful_abort_transfer : E → Bytes → Action
    start_wait deferred : ℕ → Action
    completed : TransferStatus → Action

  -- What the object is called with.
  pub data Event : Type 0 where
    transfer_completed : Outcome → Option (E × Bytes) → Event
    wait_ended : TimerResult → Event
    abort_called : Event
    graceful_abort_called : E → Bytes → Event

module _ {E : Type 0} where
  -- `if ( operationCompletionHandlerV ) operationCompletionHandlerV( status );`
  abbrev pub complete : TransferStatus → Client E → List (Action E)
  complete status c = if c.completion_handler then completed status ∷ [] else []

  unfoldable pub request : Client E → Client E × List (Action E)
  request c = (record c { retries = 0; operation = true }, request_transfer ∷ [])

  pub graceful_abort : E → Bytes → Client E → Client E × List (Action E)
  graceful_abort code message c =
      (c, cancel_wait ∷ (if c.operation then graceful_abort_transfer code message ∷ [] else []))

  pub abort_operation : Client E → Client E × List (Action E)
  abort_operation c = (c, cancel_wait ∷ (if c.operation then abort_transfer ∷ [] else []))

  -- The end of `handleCompletion`.
  pub retry : Client E → Client E × List (Action E)
  retry c =
      let retries = (c.retries + 1) % 2 ^ 16 in
      if ltb c.dlp_retries retries
      then (record c { retries = retries }, complete communication_error c)
      else (record c { retries = retries; operation = true }, request_transfer ∷ [])

  -- The inner `switch`: an ABORT message with another code is a failure like any other.
  pub abort_received : StatusCode → Client E → Client E × List (Action E)
  abort_received StatusCode.operation_aborted_by_dlp c =
      (c, complete TransferStatus.operation_aborted_by_dlp c)
  abort_received StatusCode.operation_aborted_by_operator c =
      (c, complete TransferStatus.operation_aborted_by_operator c)
  abort_received _ c = retry c

  pub wait_received : Option ℕ → Client E → Client E × List (Action E)
  wait_received none c = retry c
  wait_received (some seconds) c = (
    record c { waiting = true },
    start_wait seconds ∷ (if c.deferred_handler then deferred seconds ∷ [] else []),
  )

  -- `std::get< 1 >( *errorInformationV )`, where a type other than the invalid one is known.
  abbrev pub error_text : Option (E × Bytes) → Bytes
  error_text none = []
  error_text (some information) = information.1

  -- The outer `switch`.
  pub rejected : MessageType → Client E → Client E × List (Action E)
  rejected abort c =
      if c.handle_abort
      then abort_received (abort_status (error_text c.error_information)) c
      else retry c
  rejected wait c = wait_received (wait_time (error_text c.error_information)) c
  rejected MessageType.invalid_message c = retry c

  module _ (not_defined : E → Bool) where
    -- `handleCompletion`, with the error information of the TFTP operation.
    unfoldable pub handle_completion :
        Outcome → Option (E × Bytes) → Client E → Client E × List (Action E)
    handle_completion successful information c = (
      record c { operation = false; error_information = none },
      complete TransferStatus.successful c,
    )
    handle_completion aborted information c = (
      record c { operation = false; error_information = information },
      complete TransferStatus.aborted c,
    )
    handle_completion request_error information c =
        rejected (message_type not_defined information)
          (record c { operation = false; error_information = information })
    handle_completion other_error information c =
        retry (record c { operation = false; error_information = information })

    pub handle_wait_timeout : TimerResult → Client E → Client E × List (Action E)
    handle_wait_timeout elapsed c =
        (record c { waiting = false; operation = true }, request_transfer ∷ [])
    handle_wait_timeout operation_cancelled c =
        (record c { waiting = false }, complete TransferStatus.operation_aborted_by_dlp c)
    handle_wait_timeout timer_error c =
        (record c { waiting = false }, complete TransferStatus.operation_aborted_by_dlp c)

    abbrev pub handle : Event E → Client E → Client E × List (Action E)
    handle (transfer_completed outcome information) c = handle_completion outcome information c
    handle (wait_ended result) c = handle_wait_timeout result c
    handle abort_called c = abort_operation c
    handle (graceful_abort_called code message) c = graceful_abort code message c
