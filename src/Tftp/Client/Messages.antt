-- ===== src/Tftp/Client/Messages.antt =====
-- What a TFTP client operation makes of the answers of the server: failures, and the ABORT and WAIT
-- messages.
use arinc_615a_gui_tool_suit.Base.{
  ℕ, ◌+◌, ◌≡◌, ◌<◌, refl, ◌∙◌, ap, subst, Bool, true, false, Option, some, List, [], ◌∷◌, ◌++◌,
  Bytes, if◌then◌else◌, length, replicate, append-nil, ok, pos, arith,
}
use arinc_615a_gui_tool_suit.Codes.{
  StatusCode, operation_aborted_by_dlp, operation_aborted_by_operator,
}
use arinc_615a_gui_tool_suit.ErrorMessage.{MessageType, message_type, abort_message, wait_message}
use arinc_615a_gui_tool_suit.ErrorMessage.RoundTrip.{
  IsAborted, abort_status-abort_message, wait_time-wait_message,
}
use arinc_615a_gui_tool_suit.Tftp.Client.{
  request_error, other_error, TransferStatus, communication_error, Client, Action, Event,
  request_transfer, start_wait, deferred, completed, transfer_completed, wait_ended, elapsed,
  request, retry, abort_received, wait_received, rejected, handle_completion, handle_wait_timeout,
  handle,
}

-- What is left when a transfer has ended.
abbrev pub ended : {E : Type 0} → Option (E × Bytes) → Client E → Client E
ended information c = record c { operation = false; error_information = information }

-- The two codes with which a host aborts.
pub data Announces : StatusCode → TransferStatus → Type 0 where
  by_dlp : Announces operation_aborted_by_dlp TransferStatus.operation_aborted_by_dlp
  by_operator : Announces operation_aborted_by_operator TransferStatus.operation_aborted_by_operator

Announces-IsAborted :
    {code : StatusCode} {status : TransferStatus} → Announces code status → IsAborted code
Announces-IsAborted by_dlp = ((λ h. cc), (λ h. cc), (λ h. cc))
Announces-IsAborted by_operator = ((λ h. cc), (λ h. cc), (λ h. cc))

module _ {E : Type 0} (not_defined : E → Bool) where
  -- A series of events, one after the other.
  pub play : List (Event E) → Client E → Client E × List (Action E)
  play [] c = (c, [])
  play (event ∷ events) c =
      let (d, actions) = handle not_defined event c in
      let (result, more) = play events d in (result, actions ++ more)

  -- The server answers with an error that is no message of ARINC 615A, or the transfer fails.
  pub data IsFailure : Event E → Type 0 where
    failed :
        (information : Option (E × Bytes)) → IsFailure (transfer_completed other_error information)
    refused :
        (information : Option (E × Bytes))
        → message_type not_defined information ≡ MessageType.invalid_message
        → IsFailure (transfer_completed request_error information)

  abbrev pub AllFailures : List (Event E) → Type 0
  AllFailures [] = Unit
  AllFailures (event ∷ events) = IsFailure event × AllFailures events

  handle-IsFailure :
      (event : Event E) (c : Client E)
      → IsFailure event
      → (information : Option (E × Bytes)) × (handle not_defined event c
          ≡ retry (record c { operation = false; error_information = information }))
  unfolding handle_completion rejected
  handle-IsFailure _ c (failed information) = (information, refl)
  handle-IsFailure _ c (refused information e) = (information, rw e)

  retry_again :
      (c : Client E)
      → c.dlp_retries < 65535
      → c.retries < c.dlp_retries
      → retry c ≡ (record c { retries = c.retries + 1; operation = true }, request_transfer ∷ [])
  unfolding retry
  retry_again c small h = ground arith

  retry_last :
      (c : Client E)
      → c.dlp_retries < 65535
      → c.retries ≡ c.dlp_retries
      → c.completion_handler ≡ true
      → (retry c).1 ≡ completed communication_error ∷ []
  unfolding retry
  retry_last c small e h = ground arith

  again :
      (event : Event E) (c : Client E)
      → IsFailure event
      → c.dlp_retries < 65535
      → c.retries < c.dlp_retries
      → (d : Client E) × (handle not_defined event c ≡ (d, request_transfer ∷ []))
        × (d.dlp_retries ≡ c.dlp_retries)
        × (d.retries ≡ c.retries + 1)
        × (d.completion_handler ≡ c.completion_handler)
  again event c failure small h =
      let (information, e) = handle-IsFailure event c failure in
      (_, e ∙ retry_again _ small h, refl, refl, refl)

  last :
      (event : Event E) (c : Client E)
      → IsFailure event
      → c.dlp_retries < 65535
      → c.retries ≡ c.dlp_retries
      → c.completion_handler ≡ true
      → (handle not_defined event c).1 ≡ completed communication_error ∷ []
  last event c failure small e reported =
      let (information, h) = handle-IsFailure event c failure in
      ap (λ r. r.1) h ∙ retry_last _ small e reported

  give_up :
      (event : Event E) (events : List (Event E)) (c : Client E)
      → IsFailure event
      → AllFailures events
      → c.dlp_retries < 65535
      → c.completion_handler ≡ true
      → c.retries + length events ≡ c.dlp_retries
      → (play (event ∷ events) c).1
        ≡ replicate (length events) request_transfer ++ completed communication_error ∷ []
  unfolding play
  give_up event [] c failure all small reported e =
      append-nil _ ∙ last event c failure small (omega (arith, e)) reported
  give_up event (next ∷ events) c failure all small reported e =
      let (d, h, limit, retries, handler) = again event c failure small (omega (arith, e)) in
      rw h (
        ap (λ actions. request_transfer ∷ actions)
          (give_up next events d all.0 all.1 (omega (arith, limit)) (handler ∙ reported)
            (omega (arith, limit, retries, e))))

  -- From the request on, as many failures as retries are allowed are answered by a new request of
  -- the transfer each; the next one is reported as a communication error, and nothing else is done.
  -- The limit is below the largest number of retries, and a completion handler is registered.
  pub play-AllFailures :
      (c : Client E) (events : List (Event E))
      → c.dlp_retries < 65535
      → c.completion_handler ≡ true
      → AllFailures events
      → length events ≡ c.dlp_retries + 1
      → (play events (request c).0).1
        ≡ replicate c.dlp_retries request_transfer ++ completed communication_error ∷ []
  unfolding request
  play-AllFailures c [] small reported all e = absurd (omega (arith, e))
  play-AllFailures c (event ∷ events) small reported all e =
      let n : length events ≡ c.dlp_retries = omega (arith, e) in
      let (first, rest) = all in
      subst
        (λ k.
          (play (event ∷ events) (request c).0).1
          ≡ replicate k request_transfer ++ completed communication_error ∷ [])
        n (give_up event events (request c).0 first rest small reported (omega (arith, n)))

  abort_received-Announces :
      {code : StatusCode} {status : TransferStatus} (c : Client E)
      → Announces code status
      → c.completion_handler ≡ true
      → abort_received code c ≡ (c, completed status ∷ [])
  unfolding abort_received
  abort_received-Announces c by_dlp h = rw h
  abort_received-Announces c by_operator h = rw h

  -- An ABORT message of the host with one of its two codes: an operation that handles aborts calls
  -- the completion handler with the status for the code, and does nothing else; another one does
  -- what it does about a failure. A completion handler is registered.
  pub handle-abort_message :
      {code : StatusCode} {status : TransferStatus} (c : Client E) (e : E)
      → Announces code status
      → not_defined e ≡ true
      → c.completion_handler ≡ true
      → let information : Option (E × Bytes) = some (e, abort_message code) in
        handle not_defined (transfer_completed request_error information) c ≡ (
          if c.handle_abort
          then (ended information c, completed status ∷ [])
          else retry (ended information c))
  unfolding handle_completion rejected
  handle-abort_message {code} {status} c e announced h reported =
      let (read, type) =
        abort_status-abort_message not_defined e code h (Announces-IsAborted announced) in
      rw (type, read)
        (rw (abort_received-Announces (ended (some (e, abort_message code)) c) announced reported))

  -- A WAIT message of at most 65535 seconds: the operation waits as long as it says, tells the
  -- handler for deferred operations, if there is one, and leaves the count of retries as it is; when
  -- the time is over it requests the transfer again, with that count.
  pub handle-wait_message :
      (c : Client E) (e : E) (n : ℕ)
      → not_defined e ≡ true
      → n < 65536
      → (message : Bytes) × (wait_message (pos n) ≡ ok message)
        × (let information : Option (E × Bytes) = some (e, message) in
            let deferred_client : Client E = record c {
              operation = false;
              error_information = information;
              waiting = true;
            } in
            (handle not_defined (transfer_completed request_error information) c ≡ (
              deferred_client,
              start_wait n ∷ (if c.deferred_handler then deferred n ∷ [] else []),
            ))
            × (handle not_defined (wait_ended elapsed) deferred_client ≡ (
              record c { operation = true; error_information = information; waiting = false },
              request_transfer ∷ [],
            )))
  unfolding handle_completion rejected wait_received handle_wait_timeout
  handle-wait_message c e n h small =
      let (message, written, read, type) = wait_time-wait_message not_defined e n h small in
      (message, written, (rw (type, read), refl))
