-- ===== src/Tests/Clients.antt =====
-- Instances of the properties of the TFTP client operation. An error code is a number, and 0 is
-- `NotDefined`.
use arinc_615a_gui_tool_suit.Base.{
  ℕ, ◌+◌, ◌≤◌, ◌≡◌, ◌==◌, refl, Bool, true, false, none, some, [], ◌∷◌, Bytes, ok, pos, arith,
}
use arinc_615a_gui_tool_suit.ErrorMessage.{wait_message}
use arinc_615a_gui_tool_suit.Tftp.Client.{
  Client, Event, TransferStatus, other_error, request_error, successful, transfer_completed,
  request_transfer, completed, communication_error, start_wait, deferred, wait_ended, elapsed,
  request, handle_completion, handle,
}
use arinc_615a_gui_tool_suit.Tftp.Client.Runs.{Run, requested, and_then, Keeps, Run-Keeps}
use arinc_615a_gui_tool_suit.Tftp.Client.Limits.{requests, waits, Run-requests}
use arinc_615a_gui_tool_suit.Tftp.Client.Messages.{
  play, failed, play-AllFailures, ended, handle-wait_message,
}

abbrev is_not_defined : ℕ → Bool
is_not_defined code = code == 0

-- Two retries are allowed, and both handlers are registered.
abbrev client : Client ℕ
client = record {
  dlp_retries = 2;
  handle_abort = true;
  retries = 0;
  operation = false;
  error_information = none;
  waiting = false;
  completion_handler = true;
  deferred_handler = true;
}

abbrev running : Client ℕ
running = record client { operation = true }

abbrev failure : Event ℕ
failure = transfer_completed other_error none

abbrev finished_client : Client ℕ
finished_client = record running { operation = false }

-- A transfer is requested and is successful.
one_transfer :
    Run is_not_defined client finished_client
      (request_transfer ∷ completed TransferStatus.successful ∷ [])
unfolding request handle_completion
one_transfer = and_then requested (transfer_completed successful none) refl refl

Run-Keeps_example :
    Keeps 1 (finished_client, request_transfer ∷ completed TransferStatus.successful ∷ [])
Run-Keeps_example = Run-Keeps refl refl one_transfer

Run-requests_example :
    requests {E = ℕ} (request_transfer ∷ completed TransferStatus.successful ∷ [])
    ≤ 1 + 2 + waits {E = ℕ} (request_transfer ∷ completed TransferStatus.successful ∷ [])
Run-requests_example = Run-requests (omega arith) refl one_transfer

play-AllFailures_example :
    (play is_not_defined (failure ∷ failure ∷ failure ∷ []) (request client).0).1
    ≡ request_transfer ∷ request_transfer ∷ completed communication_error ∷ []
play-AllFailures_example =
    play-AllFailures is_not_defined client (failure ∷ failure ∷ failure ∷ []) (omega arith) refl
      (failed none, (failed none, (failed none, tt))) refl

handle-wait_message_example :
    (message : Bytes) × (wait_message (pos 30) ≡ ok message)
    × ((handle is_not_defined (transfer_completed request_error (some (0, message))) running ≡ (
      record (ended (some (0, message)) running) { waiting = true },
      start_wait 30 ∷ deferred 30 ∷ [],
    ))
        × (handle is_not_defined
              (wait_ended elapsed)
              (record (ended (some (0, message)) running) { waiting = true })
            ≡ (record running { error_information = some (0, message) }, request_transfer ∷ [])))
handle-wait_message_example = handle-wait_message is_not_defined running 0 30 refl (omega arith)
