-- ===== src/Tftp/Client/Runs.antt =====
-- The runs of a TFTP client operation, and what they keep: the completion handler is called once,
-- when nothing is left that could call it again.
use arinc_615a_gui_tool_suit.Base.{
  ℕ, ◌+◌, ◌≡◌, ◌≤◌, refl, sym, ◌∙◌, subst, Bool, true, false, inl, inr, Option, none, some, List,
  [], ◌∷◌, ◌++◌, Bool-cases, arith,
}
use arinc_615a_gui_tool_suit.Codes.{StatusCode}
use arinc_615a_gui_tool_suit.ErrorMessage.{MessageType, abort, wait}
use arinc_615a_gui_tool_suit.Tftp.Client.{
  successful, aborted, request_error, other_error, TransferStatus, elapsed, operation_cancelled,
  timer_error, Client, Action, Event, request_transfer, cancel_wait, abort_transfer,
  graceful_abort_transfer, start_wait, deferred, completed, transfer_completed, wait_ended,
  abort_called, graceful_abort_called, complete, request, graceful_abort, abort_operation, retry,
  abort_received, wait_received, rejected, handle_completion, handle_wait_timeout, handle,
}

abbrev pub as_number : Bool → ℕ
as_number true = 1
as_number false = 0

module _ {E : Type 0} where
  -- Calls of the completion handler among actions.
  pub completions : List (Action E) → ℕ
  completions [] = 0
  completions (completed status ∷ actions) = 1 + completions actions
  completions (request_transfer ∷ actions) = completions actions
  completions (cancel_wait ∷ actions) = completions actions
  completions (abort_transfer ∷ actions) = completions actions
  completions (graceful_abort_transfer code message ∷ actions) = completions actions
  completions (start_wait seconds ∷ actions) = completions actions
  completions (deferred seconds ∷ actions) = completions actions

  pub completions-append :
      (xs ys : List (Action E)) → completions (xs ++ ys) ≡ completions xs + completions ys
  unfolding completions
  completions-append [] ys = omega arith
  completions-append (completed status ∷ xs) ys = omega (arith, completions-append xs ys)
  completions-append (request_transfer ∷ xs) ys = completions-append xs ys
  completions-append (cancel_wait ∷ xs) ys = completions-append xs ys
  completions-append (abort_transfer ∷ xs) ys = completions-append xs ys
  completions-append (graceful_abort_transfer code message ∷ xs) ys = completions-append xs ys
  completions-append (start_wait seconds ∷ xs) ys = completions-append xs ys
  completions-append (deferred seconds ∷ xs) ys = completions-append xs ys

  -- The TFTP operation reports its end only while there is one, and the timer only while it has a
  -- handler. The user may abort at any time.
  abbrev pub Possible : Client E → Event E → Type 0
  Possible c (transfer_completed outcome information) = c.operation ≡ true
  Possible c (wait_ended result) = c.waiting ≡ true
  Possible c abort_called = Unit
  Possible c (graceful_abort_called code message) = Unit

  -- What is outstanding.
  abbrev pub pending : Client E → ℕ
  pending c = as_number c.operation + as_number c.waiting

  -- `n` calls of the completion handler were made or are still to come.
  pub record Keeps (n : ℕ) (r : Client E × List (Action E)) : Type 0 where
    pub total : pending r.0 + completions r.1 ≡ n
    pub reported : r.0.completion_handler ≡ true

  retry-Keeps :
      (c : Client E)
      → c.operation ≡ false
      → c.waiting ≡ false
      → c.completion_handler ≡ true
      → Keeps 1 (retry c)
  unfolding retry completions
  retry-Keeps c op w h = ground arith

  complete-Keeps :
      (c : Client E) (status : TransferStatus)
      → c.operation ≡ false
      → c.waiting ≡ false
      → c.completion_handler ≡ true
      → Keeps 1 (c, complete status c)
  unfolding completions
  complete-Keeps c status op w h = ground arith

  abort_received-Keeps :
      (code : StatusCode) (c : Client E)
      → c.operation ≡ false
      → c.waiting ≡ false
      → c.completion_handler ≡ true
      → Keeps 1 (abort_received code c)
  unfolding abort_received
  abort_received-Keeps StatusCode.operation_aborted_by_dlp c op w h = complete-Keeps c _ op w h
  abort_received-Keeps StatusCode.operation_aborted_by_operator c op w h = complete-Keeps c _ op w h
  abort_received-Keeps _ c op w h = retry-Keeps c op w h

  wait_received-Keeps :
      (time : Option ℕ) (c : Client E)
      → c.operation ≡ false
      → c.waiting ≡ false
      → c.completion_handler ≡ true
      → Keeps 1 (wait_received time c)
  unfolding wait_received completions
  wait_received-Keeps none c op w h = retry-Keeps c op w h
  wait_received-Keeps (some seconds) c op w h = ground arith

  rejected-Keeps :
      (type : MessageType) (c : Client E)
      → c.operation ≡ false
      → c.waiting ≡ false
      → c.completion_handler ≡ true
      → Keeps 1 (rejected type c)
  unfolding rejected
  rejected-Keeps abort c op w h = elim (Bool-cases c.handle_abort) [
    | inl e ↦ simp e (abort_received-Keeps _ c op w h)
    | inr e ↦ simp e (retry-Keeps c op w h)
  ]
  rejected-Keeps wait c op w h = wait_received-Keeps _ c op w h
  rejected-Keeps MessageType.invalid_message c op w h = retry-Keeps c op w h

  Keeps-pending :
      (c : Client E) {r : Client E × List (Action E)}
      → c.operation ≡ true
      → pending c ≤ 1
      → Keeps 1 r
      → Keeps (pending c) r
  Keeps-pending c {r} op one k =
      let e : pending c ≡ 1 = ground arith in
      record { total = k.total ∙ sym e; reported = k.reported }

  -- A step neither loses nor doubles what is outstanding.
  handle-Keeps :
      (not_defined : E → Bool) (event : Event E) (c : Client E)
      → Possible c event
      → pending c ≤ 1
      → c.completion_handler ≡ true
      → Keeps (pending c) (handle not_defined event c)
  unfolding handle_completion handle_wait_timeout completions graceful_abort abort_operation
  handle-Keeps not_defined (transfer_completed request_error information) c p one h =
      Keeps-pending c p one (rejected-Keeps _ _ refl (ground arith) h)
  handle-Keeps not_defined (transfer_completed other_error information) c p one h =
      Keeps-pending c p one (retry-Keeps _ refl (ground arith) h)
  handle-Keeps not_defined (transfer_completed successful information) c p one h = ground arith
  handle-Keeps not_defined (transfer_completed aborted information) c p one h = ground arith
  handle-Keeps not_defined (wait_ended elapsed) c p one h = ground arith
  handle-Keeps not_defined (wait_ended operation_cancelled) c p one h = ground arith
  handle-Keeps not_defined (wait_ended timer_error) c p one h = ground arith
  handle-Keeps not_defined abort_called c p one h = ground arith
  handle-Keeps not_defined (graceful_abort_called code message) c p one h = ground arith

  -- What a client does from its request on: its state and all the actions so far.
  pub data Run (not_defined : E → Bool) (c : Client E) : Client E → List (Action E) → Type 0 where
    requested : Run not_defined c (request c).0 (request c).1
    and_then :
        {d d' : Client E} {actions new : List (Action E)}
        → Run not_defined c d actions
        → (event : Event E) → Possible d event
        → handle not_defined event d ≡ (d', new)
        → Run not_defined c d' (actions ++ new)

  request-Keeps :
      (c : Client E) → c.waiting ≡ false → c.completion_handler ≡ true → Keeps 1 (request c)
  unfolding request completions
  request-Keeps c w h = ground arith

  append-Keeps :
      {c d : Client E} (old new : List (Action E)) (n : ℕ)
      → Keeps n (c, old)
      → Keeps (pending c) (d, new)
      → Keeps n (d, old ++ new)
  append-Keeps old new n h k = record {
    total = omega (arith, h.total, k.total, completions-append old new);
    reported = k.reported;
  }

  -- From the request on, with a completion handler registered and no wait left over: either one
  -- transfer or one wait is outstanding and the completion handler has not been called, or nothing
  -- is outstanding and it has been called once.
  pub Run-Keeps :
      {not_defined : E → Bool} {c d : Client E} {actions : List (Action E)}
      → c.waiting ≡ false
      → c.completion_handler ≡ true
      → Run not_defined c d actions
      → Keeps 1 (d, actions)
  Run-Keeps {c = c} w h requested = request-Keeps c w h
  Run-Keeps {not_defined} w h (and_then {d} {actions = actions} {new} run event p e) =
      let k = Run-Keeps w h run in
      append-Keeps actions new 1 k (
        subst (Keeps (pending d)) e
          (handle-Keeps not_defined event d p (omega (arith, k.total)) k.reported))
