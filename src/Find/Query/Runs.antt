-- ===== src/Find/Query/Runs.antt =====
-- The runs of a FIND query, with aborts at any time.
use arinc_615a_gui_tool_suit.Base.{
  ℕ, ◌+◌, ◌≤◌, ◌≡◌, ◌≢◌, refl, take, Bool, true, false, List, Bytes, All, All-take, Result, ok, err,
  arith,
}
use arinc_615a_gui_tool_suit.RawData.{RawData, IsByte}
use arinc_615a_gui_tool_suit.Find.Handler.{Statistic, TargetInformation}
use arinc_615a_gui_tool_suit.Find.Handler.Robust.{receive_packet-query_robust}
use arinc_615a_gui_tool_suit.Find.Query.{
  ErrorCode, no_error, operation_aborted, other_error, Query, Closing, all_closed, not_closed,
  not_cancelled, max_packet_size, start, abort, timer_handler, handled, receive_handler,
}

abbrev pub as_number : Bool → ℕ
as_number true = 1
as_number false = 0

module _ ⦃lib : RawData⦄ {R A : Type 0} (address : R → A) where
  -- From a start on, with the number of aborts and of the calls of the timer's handler that were not
  -- cancelled. The handler of a timer that was cancelled may be called already, so an abort does not
  -- rule out a time-out; the handler is called as cancelled only behind a cancellation.
  pub data Run (q : Query A) : Query A → ℕ → ℕ → Type 0 where
    started : Run q (start true true q).0 0 0
    timed_out :
        {r : Query A} {aborts timeouts : ℕ} (code : ErrorCode) (socket_closed : Bool)
        → Run q r aborts timeouts
        → r.timing ≡ true
        → code ≢ operation_aborted
        → Run q (timer_handler code socket_closed r).0 aborts (timeouts + 1)
    aborted :
        {r : Query A} {aborts timeouts : ℕ} (closing : Closing)
        → Run q r aborts timeouts
        → Run q (abort closing r).0 (aborts + 1) timeouts
    timer_stopped :
        {r : Query A} {aborts timeouts : ℕ} (socket_closed : Bool)
        → Run q r aborts timeouts
        → r.timing ≡ true
        → r.timer_cancelled ≡ true
        → Run q (timer_handler operation_aborted socket_closed r).0 aborts timeouts
    receives :
        {r : Query A} {aborts timeouts : ℕ} (code : ErrorCode) (remote : R) (raw_packet : Bytes)
        → Run q r aborts timeouts
        → r.receiving ≡ true
        → Run q (receive_handler address code remote raw_packet r).0 aborts timeouts

  record Keeps (r : Query A) (aborts timeouts : ℕ) : Type 0 where
    pub has_handler : r.has_completion_handler ≡ true
    pub total : r.completed ≡ aborts + timeouts
    pub at_most_once : as_number r.timing + timeouts ≤ 1
    pub not_lost : 1 ≤ as_number r.timing + timeouts + aborts
    pub cancelled : as_number r.timer_cancelled ≤ aborts

  -- What a reception leaves as it is.
  receive-Keeps :
      (code : ErrorCode) (remote : R) (raw_packet : Bytes) (r : Query A) (aborts timeouts : ℕ)
      → Keeps r aborts timeouts
      → Keeps (receive_handler address code remote raw_packet r).0 aborts timeouts
  unfolding receive_handler
  receive-Keeps operation_aborted remote raw_packet r aborts timeouts h = record {
    has_handler = h.has_handler;
    total = h.total;
    at_most_once = h.at_most_once;
    not_lost = h.not_lost;
    cancelled = h.cancelled;
  }
  receive-Keeps other_error remote raw_packet r aborts timeouts h = record {
    has_handler = h.has_handler;
    total = h.total;
    at_most_once = h.at_most_once;
    not_lost = h.not_lost;
    cancelled = h.cancelled;
  }
  receive-Keeps no_error remote raw_packet r aborts timeouts h = handled-Keeps _ r aborts timeouts h
    where
      handled-Keeps :
          (result : Result (List (A × TargetInformation) × Statistic)) (r : Query A)
          (aborts timeouts : ℕ)
          → Keeps r aborts timeouts
          → Keeps (handled address result r).0 aborts timeouts
      handled-Keeps (ok done) r aborts timeouts h = record {
        has_handler = h.has_handler;
        total = h.total;
        at_most_once = h.at_most_once;
        not_lost = h.not_lost;
        cancelled = h.cancelled;
      }
      handled-Keeps (err e) r aborts timeouts h = record {
        has_handler = h.has_handler;
        total = h.total;
        at_most_once = h.at_most_once;
        not_lost = h.not_lost;
        cancelled = h.cancelled;
      }

  timeout-Keeps :
      (code : ErrorCode) (socket_closed : Bool) (r : Query A) (aborts timeouts : ℕ)
      → Keeps r aborts timeouts
      → r.timing ≡ true
      → code ≢ operation_aborted
      → Keeps (timer_handler code socket_closed r).0 aborts (timeouts + 1)
  unfolding timer_handler
  timeout-Keeps operation_aborted c r aborts timeouts h timing other = absurd (other refl)
  timeout-Keeps no_error true r aborts timeouts h timing other =
      ground (arith, h.has_handler, h.total, h.at_most_once, h.not_lost, h.cancelled)
  timeout-Keeps no_error false r aborts timeouts h timing other =
      ground (arith, h.has_handler, h.total, h.at_most_once, h.not_lost, h.cancelled)
  timeout-Keeps other_error true r aborts timeouts h timing other =
      ground (arith, h.has_handler, h.total, h.at_most_once, h.not_lost, h.cancelled)
  timeout-Keeps other_error false r aborts timeouts h timing other =
      ground (arith, h.has_handler, h.total, h.at_most_once, h.not_lost, h.cancelled)

  stopped-Keeps :
      (socket_closed : Bool) (r : Query A) (aborts timeouts : ℕ)
      → Keeps r aborts timeouts
      → r.timing ≡ true
      → r.timer_cancelled ≡ true
      → Keeps (timer_handler operation_aborted socket_closed r).0 aborts timeouts
  unfolding timer_handler
  stopped-Keeps c r aborts timeouts h timing stopped =
      ground (arith, h.has_handler, h.total, h.at_most_once, h.not_lost, h.cancelled)

  abort-Keeps :
      (closing : Closing) (r : Query A) (aborts timeouts : ℕ)
      → Keeps r aborts timeouts
      → Keeps (abort closing r).0 (aborts + 1) timeouts
  unfolding abort
  abort-Keeps all_closed r aborts timeouts h =
      ground (arith, h.has_handler, h.total, h.at_most_once, h.not_lost, h.cancelled)
  abort-Keeps not_closed r aborts timeouts h =
      ground (arith, h.has_handler, h.total, h.at_most_once, h.not_lost, h.cancelled)
  abort-Keeps not_cancelled r aborts timeouts h =
      ground (arith, h.has_handler, h.total, h.at_most_once, h.not_lost, h.cancelled)

  Run-Keeps :
      {q r : Query A} {aborts timeouts : ℕ}
      → q.has_completion_handler ≡ true
      → q.completed ≡ 0
      → Run q r aborts timeouts
      → Keeps r aborts timeouts
  unfolding start
  Run-Keeps h none' started = record {
    has_handler = h;
    total = none';
    at_most_once = omega arith;
    not_lost = omega arith;
    cancelled = omega arith;
  }
  Run-Keeps h none' (timed_out {r} {aborts} {timeouts} code socket_closed run timing other) =
      timeout-Keeps code socket_closed r aborts timeouts (Run-Keeps h none' run) timing other
  Run-Keeps h none' (aborted {r} {aborts} {timeouts} closing run) =
      abort-Keeps closing r aborts timeouts (Run-Keeps h none' run)
  Run-Keeps h none' (timer_stopped {r} {aborts} {timeouts} socket_closed run timing stopped) =
      stopped-Keeps socket_closed r aborts timeouts (Run-Keeps h none' run) timing stopped
  Run-Keeps h none' (receives {r} {aborts} {timeouts} code remote raw_packet run receiving) =
      receive-Keeps code remote raw_packet r aborts timeouts (Run-Keeps h none' run)

  -- A query with a completion handler, started and not completed before, whatever happens then, with
  -- aborts at any time, and with a timer that may be over although an abort cancelled it: the
  -- completion handler was called once for each abort, and once for a time-out. There is one time-out
  -- at most, and none while the timer is outstanding; without an abort, the timer is outstanding or
  -- there was a time-out.
  pub Run-completed :
      {q r : Query A} {aborts timeouts : ℕ}
      → q.has_completion_handler ≡ true
      → q.completed ≡ 0
      → Run q r aborts timeouts
      → (r.completed ≡ aborts + timeouts)
        × (as_number r.timing + timeouts ≤ 1)
        × (1 ≤ as_number r.timing + timeouts + aborts)
  Run-completed h none' run = let k = Run-Keeps h none' run in (k.total, k.at_most_once, k.not_lost)

  abort-once :
      (closing : Closing) (q : Query A)
      → q.has_completion_handler ≡ true
      → ((abort closing q).0.has_completion_handler ≡ true)
        × ((abort closing q).0.completed ≡ q.completed + 1)
  unfolding abort
  abort-once all_closed q h = ground (arith, h)
  abort-once not_closed q h = ground (arith, h)
  abort-once not_cancelled q h = ground (arith, h)

  timer-once :
      (code : ErrorCode) (socket_closed : Bool) (q : Query A)
      → q.has_completion_handler ≡ true
      → code ≢ operation_aborted
      → ((timer_handler code socket_closed q).0.has_completion_handler ≡ true)
        × ((timer_handler code socket_closed q).0.completed ≡ q.completed + 1)
  unfolding timer_handler
  timer-once operation_aborted c q h other = absurd (other refl)
  timer-once no_error true q h other = ground (arith, h)
  timer-once no_error false q h other = ground (arith, h)
  timer-once other_error true q h other = ground (arith, h)
  timer-once other_error false q h other = ground (arith, h)

  -- A query that is aborted when its time is over, or a second time, calls its completion handler
  -- once more, whether its socket can be closed or not.
  pub abort-again :
      (q : Query A) (code : ErrorCode) (socket_closed : Bool) (first second : Closing)
      → q.has_completion_handler ≡ true
      → code ≢ operation_aborted
      → ((abort second (timer_handler code socket_closed q).0).0.completed ≡ q.completed + 2)
        × ((abort second (abort first q).0).0.completed ≡ q.completed + 2)
  abort-again q code socket_closed first second h other =
      let (one_h, one) = timer-once code socket_closed q h other in
      let (first_h, first_one) = abort-once first q h in
      (
        omega (arith, (abort-once second (timer_handler code socket_closed q).0 one_h).1, one),
        omega (arith, (abort-once second (abort first q).0 first_h).1, first_one),
      )

module _ ⦃lib : RawData⦄ {R A : Type 0} (address : R → A) where
  -- Whatever datagram a query with a response handler receives, no exception leaves the function, and
  -- the query goes on receiving; so it does after an error of the reception.
  pub receive_handler-receiving :
      (q : Query A) (remote : R) (raw_packet : Bytes)
      → q.has_response_handler ≡ true
      → All IsByte raw_packet
      → ((receive_handler address no_error remote raw_packet q).1 ≡ ok tt)
        × ((receive_handler address no_error remote raw_packet q).0.receiving ≡ true)
        × (receive_handler address other_error remote raw_packet q
            ≡ (record q { receiving = true }, ok tt))
  unfolding receive_handler
  receive_handler-receiving q remote raw_packet h bytes =
      let (type, calls, e, step) =
        receive_packet-query_robust address remote (take max_packet_size raw_packet)
          q.received_statistic q.responses (All-take IsByte max_packet_size raw_packet bytes) in
      (rw (h, e), rw (h, e), refl)
