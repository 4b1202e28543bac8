-- ===== src/Find/Query.antt =====
-- The life of a FIND query (lib/arinc_615a/find/clients/implementation/QueryImpl.cpp): its socket, its
-- timer and its handlers. Whether the calls of the socket throw is an argument of the functions.
pub mod Runs
use arinc_615a_gui_tool_suit.Base.{
  ℕ, ◌+◌, take, Bool, true, false, List, [], ◌∷◌, ◌++◌, Bytes, if◌then◌else◌, length, Result, ok,
  err, Error, arinc_615a_exception,
}
use arinc_615a_gui_tool_suit.RawData.{RawData}
use arinc_615a_gui_tool_suit.Find.Packet.{Packet, information_request, empty_packet, encode}
use arinc_615a_gui_tool_suit.Find.Handler.{
  Statistic, count_packet, receive_packet, query_handler, TargetInformation,
}

-- What an asynchronous operation calls its handler with.
pub data ErrorCode : Type 0 where
  no_error operation_aborted other_error : ErrorCode

-- How `abort` ends: the socket and the timer are cancelled and the socket is closed, or the socket is
-- not closed, or nothing is cancelled.
pub data Closing : Type 0 where
  all_closed not_closed not_cancelled : Closing

-- `MaxPacketSize`, the size of the buffer for a datagram; what does not fit is dropped.
abbrev pub max_packet_size : ℕ
max_packet_size = 1024

-- Addresses are `A`. The packets that were sent, the calls of the two handlers, whether a
-- reception and the timer are outstanding, and whether the timer was cancelled.
pub record Query (A : Type 0) : Type 0 where
  pub has_response_handler : Bool
  pub has_completion_handler : Bool
  pub sent : List Bytes
  pub responses : List (A × TargetInformation)
  pub completed : ℕ
  pub receiving : Bool
  pub timing : Bool
  pub timer_cancelled : Bool
  pub received_statistic : Statistic
  pub transmitted_statistic : Statistic

module _ {A : Type 0} where
  -- The call of the completion handler.
  abbrev pub complete : Query A → Query A
  complete q = if q.has_completion_handler then record q { completed = q.completed + 1 } else q

  -- A function that ends, or throws `FindClientException`.
  abbrev pub or_throw : Bool → Query A → Query A × Result (Unit {0})
  or_throw true q = (q, ok tt)
  or_throw false q = (q, err arinc_615a_exception)

  module _ ⦃lib : RawData⦄ where
    -- `send`
    abbrev pub send : Packet → Query A → Query A
    send packet q = record q {
      sent = q.sent ++ encode packet ∷ [];
      transmitted_statistic =
          count_packet packet.opcode (length (encode packet)) q.transmitted_statistic;
    }

    -- `start`, with whether the socket is opened and whether it sends the packet: an exception of the
    -- socket calls the completion handler, and is thrown again. A packet that is not sent is counted.
    unfoldable pub start : Bool → Bool → Query A → Query A × Result (Unit {0})
    start true true q = (
      record (send (empty_packet information_request 1) q) {
        receiving = true;
        timing = true;
        timer_cancelled = false;
      },
      ok tt,
    )
    start true false q = or_throw false (
        complete (record q {
          transmitted_statistic =
              (send (empty_packet information_request 1) q).transmitted_statistic;
        }))
    start false sends q = or_throw false (complete q)

  -- `abort`: the handlers of what is cancelled are called later, with `operation_aborted`, except for
  -- one that is called already. When the socket is not cancelled, the timer is not cancelled either.
  unfoldable pub abort : Closing → Query A → Query A × Result (Unit {0})
  abort all_closed q = or_throw true (complete (record q { timer_cancelled = true }))
  abort not_closed q = or_throw false (complete (record q { timer_cancelled = true }))
  abort not_cancelled q = or_throw false (complete q)

  -- `timerHandler`
  unfoldable pub timer_handler : ErrorCode → Bool → Query A → Query A × Result (Unit {0})
  timer_handler operation_aborted closed q = (record q { timing = false }, ok tt)
  timer_handler no_error closed q = or_throw closed (complete (record q { timing = false }))
  timer_handler other_error closed q = or_throw closed (complete (record q { timing = false }))

  module _ ⦃lib : RawData⦄ {R : Type 0} (address : R → A) where
    -- A datagram that is handled, behind which the next one is received.
    abbrev pub handled :
        Result (List (A × TargetInformation) × Statistic) → Query A → Query A × Result (Unit {0})
    handled (ok done) q =
        (record q { responses = done.0; received_statistic = done.1; receiving = true }, ok tt)
    handled (err e) q = (record q { receiving = false }, err e)

    -- `receiveHandler`
    unfoldable pub receive_handler : ErrorCode → R → Bytes → Query A → Query A × Result (Unit {0})
    receive_handler operation_aborted remote raw_packet q = (record q { receiving = false }, ok tt)
    receive_handler other_error remote raw_packet q = (record q { receiving = true }, ok tt)
    receive_handler no_error remote raw_packet q =
        handled
          (receive_packet (query_handler address q.has_response_handler) remote
            (take max_packet_size raw_packet) q.responses q.received_statistic)
          q
