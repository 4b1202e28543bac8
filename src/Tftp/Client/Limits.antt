-- ===== src/Tftp/Client/Limits.antt =====
-- A TFTP client operation comes to an end: the transfers that it requests are limited by the
-- retries and by the waits that the server asks for, and failures alone lead to its report.
use arinc_615a_gui_tool_suit.Base.{
  ℕ, ◌+◌, ◌≡◌, ◌≤◌, ◌<◌, subst, Bool, true, false, inl, inr, Option, none, some, List, [], ◌∷◌,
  ◌++◌, Bytes, Bool-cases, arith,
}
use arinc_615a_gui_tool_suit.Codes.{StatusCode}
use arinc_615a_gui_tool_suit.ErrorMessage.{MessageType, abort, wait}
use arinc_615a_gui_tool_suit.Tftp.Client.{
  successful, aborted, request_error, other_error, TransferStatus, elapsed, operation_cancelled,
  timer_error, Client, Action, Event, request_transfer, cancel_wait, abort_transfer,
  graceful_abort_transfer, start_wait, deferred, completed, transfer_completed, wait_ended,
  abort_called, graceful_abort_called, complete, request, graceful_abort, abort_operation, retry,
  abort_received, wait_received, rejected, handle_completion, handle_wait_timeout, handle,
}
use arinc_615a_gui_tool_suit.Tftp.Client.Runs.{
  as_number, Possible, pending, Run, requested, and_then,
}

module _ {E : Type 0} where
  -- The transfers requested, and the waits started.
  pub requests : List (Action E) → ℕ
  requests [] = 0
  requests (request_transfer ∷ actions) = 1 + requests actions
  requests (completed status ∷ actions) = requests actions
  requests (cancel_wait ∷ actions) = requests actions
  requests (abort_transfer ∷ actions) = requests actions
  requests (graceful_abort_transfer code message ∷ actions) = requests actions
  requests (start_wait seconds ∷ actions) = requests actions
  requests (deferred seconds ∷ actions) = requests actions

  pub waits : List (Action E) → ℕ
  waits [] = 0
  waits (start_wait seconds ∷ actions) = 1 + waits actions
  waits (request_transfer ∷ actions) = waits actions
  waits (completed status ∷ actions) = waits actions
  waits (cancel_wait ∷ actions) = waits actions
  waits (abort_transfer ∷ actions) = waits actions
  waits (graceful_abort_transfer code message ∷ actions) = waits actions
  waits (deferred seconds ∷ actions) = waits actions

  requests-append : (xs ys : List (Action E)) → requests (xs ++ ys) ≡ requests xs + requests ys
  unfolding requests
  requests-append [] ys = omega arith
  requests-append (request_transfer ∷ xs) ys = omega (arith, requests-append xs ys)
  requests-append (completed status ∷ xs) ys = requests-append xs ys
  requests-append (cancel_wait ∷ xs) ys = requests-append xs ys
  requests-append (abort_transfer ∷ xs) ys = requests-append xs ys
  requests-append (graceful_abort_transfer code message ∷ xs) ys = requests-append xs ys
  requests-append (start_wait seconds ∷ xs) ys = requests-append xs ys
  requests-append (deferred seconds ∷ xs) ys = requests-append xs ys

  waits-append : (xs ys : List (Action E)) → waits (xs ++ ys) ≡ waits xs + waits ys
  unfolding waits
  waits-append [] ys = omega arith
  waits-append (start_wait seconds ∷ xs) ys = omega (arith, waits-append xs ys)
  waits-append (request_transfer ∷ xs) ys = waits-append xs ys
  waits-append (completed status ∷ xs) ys = waits-append xs ys
  waits-append (cancel_wait ∷ xs) ys = waits-append xs ys
  waits-append (abort_transfer ∷ xs) ys = waits-append xs ys
  waits-append (graceful_abort_transfer code message ∷ xs) ys = waits-append xs ys
  waits-append (deferred seconds ∷ xs) ys = waits-append xs ys

  -- After `q` requests and `w` waits.
  record IsLimited (limit q w : ℕ) (c : Client E) : Type 0 where
    fixed : c.dlp_retries ≡ limit
    one : pending c ≤ 1
    counted : c.retries + pending c ≤ limit + 1
    by_retries : q + as_number c.waiting ≤ 1 + c.retries + w
    by_limit : q + as_number c.waiting ≤ 1 + limit + w

  abbrev Stays : ℕ → ℕ → ℕ → Client E × List (Action E) → Type 0
  Stays limit q w r = IsLimited limit (q + requests r.1) (w + waits r.1) r.0

  -- A transfer that has ended, before the code decides.
  record IsIdle (limit q w : ℕ) (c : Client E) : Type 0 where
    fixed : c.dlp_retries ≡ limit
    no_operation : c.operation ≡ false
    no_wait : c.waiting ≡ false
    counted : c.retries ≤ limit
    by_retries : q ≤ 1 + c.retries + w
    by_limit : q ≤ 1 + limit + w

  module _ (limit q w : ℕ) (small : limit < 65535) where
    retry-Stays : (c : Client E) → IsIdle limit q w c → Stays limit q w (retry c)
    unfolding retry requests waits
    retry-Stays c h = ground arith

    complete-Stays :
        (c : Client E) (status : TransferStatus)
        → IsIdle limit q w c
        → Stays limit q w (c, complete status c)
    unfolding requests waits
    complete-Stays c status h = ground arith

    abort_received-Stays :
        (code : StatusCode) (c : Client E)
        → IsIdle limit q w c
        → Stays limit q w (abort_received code c)
    unfolding abort_received
    abort_received-Stays StatusCode.operation_aborted_by_dlp c h = complete-Stays c _ h
    abort_received-Stays StatusCode.operation_aborted_by_operator c h = complete-Stays c _ h
    abort_received-Stays _ c h = retry-Stays c h

    wait_received-Stays :
        (time : Option ℕ) (c : Client E)
        → IsIdle limit q w c
        → Stays limit q w (wait_received time c)
    unfolding wait_received requests waits
    wait_received-Stays none c h = retry-Stays c h
    wait_received-Stays (some seconds) c h = ground arith

    rejected-Stays :
        (type : MessageType) (c : Client E) → IsIdle limit q w c → Stays limit q w (rejected type c)
    unfolding rejected
    rejected-Stays abort c h = elim (Bool-cases c.handle_abort) [
      | inl e ↦ simp e (abort_received-Stays _ c h)
      | inr e ↦ simp e (retry-Stays c h)
    ]
    rejected-Stays wait c h = wait_received-Stays _ c h
    rejected-Stays MessageType.invalid_message c h = retry-Stays c h

    ended-IsIdle :
        (c : Client E) (information : Option (E × Bytes))
        → c.operation ≡ true
        → IsLimited limit q w c
        → IsIdle limit q w (record c { operation = false; error_information = information })
    ended-IsIdle c information op h = ground arith

    handle-Stays :
        (not_defined : E → Bool) (event : Event E) (c : Client E)
        → Possible c event
        → IsLimited limit q w c
        → Stays limit q w (handle not_defined event c)
    unfolding handle_completion handle_wait_timeout graceful_abort abort_operation requests waits
    handle-Stays not_defined (transfer_completed request_error information) c p h =
        rejected-Stays _ _ (ended-IsIdle c information p h)
    handle-Stays not_defined (transfer_completed other_error information) c p h =
        retry-Stays _ (ended-IsIdle c information p h)
    handle-Stays not_defined (transfer_completed successful information) c p h =
        complete-Stays _ _ (ended-IsIdle c none p h)
    handle-Stays not_defined (transfer_completed aborted information) c p h =
        complete-Stays _ _ (ended-IsIdle c information p h)
    handle-Stays not_defined (wait_ended elapsed) c p h = ground arith
    handle-Stays not_defined (wait_ended operation_cancelled) c p h = ground arith
    handle-Stays not_defined (wait_ended timer_error) c p h = ground arith
    handle-Stays not_defined abort_called c p h = ground arith
    handle-Stays not_defined (graceful_abort_called code message) c p h = ground arith

  request-IsLimited :
      (c : Client E)
      → c.waiting ≡ false
      → IsLimited c.dlp_retries (requests (request c).1) (waits (request c).1) (request c).0
  unfolding request requests waits
  request-IsLimited c h = ground arith

  append-IsLimited :
      (limit : ℕ) (d : Client E) (old new : List (Action E))
      → IsLimited limit (requests old + requests new) (waits old + waits new) d
      → IsLimited limit (requests (old ++ new)) (waits (old ++ new)) d
  append-IsLimited limit d old new h = rw (requests-append, waits-append) h

  Run-IsLimited :
      {not_defined : E → Bool} {c d : Client E} {actions : List (Action E)}
      → c.dlp_retries < 65535
      → c.waiting ≡ false
      → Run not_defined c d actions
      → IsLimited c.dlp_retries (requests actions) (waits actions) d
  Run-IsLimited {c = c} small w requested = request-IsLimited c w
  Run-IsLimited {not_defined} {c} small w
        (and_then {d} {d' = d'} {actions = old} {new} run event p e) =
      append-IsLimited c.dlp_retries d' old new (
        subst (Stays c.dlp_retries (requests old) (waits old)) e (
          handle-Stays c.dlp_retries (requests old) (waits old) small not_defined event d p
            (Run-IsLimited small w run)))

  -- A run requests one transfer, one more for each retry that is allowed, and one more for each
  -- wait that the server asked for, at most. The limit is below the largest number of retries, and
  -- no wait is left over.
  pub Run-requests :
      {not_defined : E → Bool} {c d : Client E} {actions : List (Action E)}
      → c.dlp_retries < 65535
      → c.waiting ≡ false
      → Run not_defined c d actions
      → requests actions ≤ 1 + c.dlp_retries + waits actions
  Run-requests small w run = let h = Run-IsLimited small w run in omega (arith, h.by_limit)
