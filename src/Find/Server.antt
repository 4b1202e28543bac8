-- ===== src/Find/Server.antt =====
-- The life of a FIND server (lib/arinc_615a/find/servers/implementation/ServerImpl.cpp): its socket and
-- its request handler. Whether the calls of the socket throw is an argument of the functions; the
-- request handler is a function that ends or throws.
use arinc_615a_gui_tool_suit.Base.{
  take, sym, subst, ◌⊎◌, inl, inr, Bool, true, false, Option, some, List, [], ◌∷◌, ◌++◌, Bytes, All,
  ◌≡◌, refl, length, Result, ok, err, Error, arinc_615a_exception, system_error, All-take,
}
use arinc_615a_gui_tool_suit.RawData.{RawData, IsByte}
use arinc_615a_gui_tool_suit.Find.Packet.{encode}
use arinc_615a_gui_tool_suit.Find.Handler.{
  Statistic, count_packet, receive_packet, server_handler, TargetInformation, answer_packet,
}
use arinc_615a_gui_tool_suit.Find.Handler.Robust.{
  IsHandled, ServerStep, HandlerThrows, receive_packet-server,
}
use arinc_615a_gui_tool_suit.Find.Query.{
  ErrorCode, no_error, operation_aborted, other_error, max_packet_size,
}

-- Endpoints are `R`. The answers that were sent, with their receivers, the calls of the request
-- handler that ended, and whether a reception is outstanding.
pub record Server (R : Type 0) : Type 0 where
  pub request_handler : Option (R → Result (Unit {0}))
  pub open_socket : Bool
  pub receiving : Bool
  pub requests : List R
  pub sent : List (R × Bytes)
  pub received_statistic : Statistic
  pub transmitted_statistic : Statistic

module _ {R : Type 0} where
  -- `start`: an exception of the socket closes it.
  unfoldable pub start : Bool → Server R → Server R × Result (Unit {0})
  start true server = (record server { open_socket = true; receiving = true }, ok tt)
  start false server = (record server { open_socket = false }, err arinc_615a_exception)

  module _ ⦃lib : RawData⦄ where
    -- A packet that is counted before it is sent.
    abbrev pub count_answer : TargetInformation → Server R → Server R
    count_answer information server = record server {
      transmitted_statistic =
          count_packet (answer_packet information).opcode
            (length (encode (answer_packet information))) server.transmitted_statistic;
    }

    -- `response`, with whether the socket sends the packet.
    unfoldable pub response : Bool → R → TargetInformation → Server R → Server R × Result (Unit {0})
    response false remote information server = (count_answer information server, err system_error)
    response true remote information server = (
      record (count_answer information server) {
        sent = server.sent ++ (remote, encode (answer_packet information)) ∷ [];
      },
      ok tt,
    )

    -- A datagram that is handled, behind which the next one is received.
    abbrev pub handled : Result (List R × Statistic) → Server R → Server R × Result (Unit {0})
    handled (ok done) server =
        (record server { requests = done.0; received_statistic = done.1; receiving = true }, ok tt)
    handled (err e) server = (record server { receiving = false }, err e)

    -- `receiveHandler`
    unfoldable pub receive_handler : ErrorCode → R → Bytes → Server R → Server R × Result (Unit {0})
    receive_handler operation_aborted remote raw_packet server =
        (record server { receiving = false }, ok tt)
    receive_handler other_error remote raw_packet server =
        (record server { receiving = true }, ok tt)
    receive_handler no_error remote raw_packet server =
        handled
          (receive_packet (server_handler server.request_handler) remote
            (take max_packet_size raw_packet) server.requests server.received_statistic)
          server

    handled_or_thrown :
        (handler : R → Result (Unit {0})) (server : Server R) (remote : R)
        (r : Result (List R × Statistic)) (raw_packet : Bytes)
        → IsHandled
            (server_handler (some handler))
            ServerStep
            (HandlerThrows handler)
            remote
            raw_packet
            server.requests
            server.received_statistic
            r
        → (((handled r server).1 ≡ ok tt) × ((handled r server).0.receiving ≡ true))
          ⊎ ((e : Error) × (handler remote ≡ err e)
              × (handled r server ≡ (record server { receiving = false }, err e)))
    handled_or_thrown handler server remote r raw_packet (inl (type, calls, e, step)) =
        inl (rw e refl, rw e refl)
    handled_or_thrown handler server remote r raw_packet (inr (e, q, throws)) =
        inr (e, throws, rw q refl)

    -- Whatever datagram a server with a request handler receives: no exception leaves the function and
    -- the server goes on receiving, or the request handler throws an exception for the sender, which
    -- leaves the function, and the server does not go on. It goes on after an error of the reception.
    pub receive_handler-serving :
        (server : Server R) (handler : R → Result (Unit {0})) (remote : R) (raw_packet : Bytes)
        → server.request_handler ≡ some handler
        → All IsByte raw_packet
        → let r = receive_handler no_error remote raw_packet server in
          (((r.1 ≡ ok tt) × (r.0.receiving ≡ true))
            ⊎ ((e : Error) × (handler remote ≡ err e)
                × (r ≡ (record server { receiving = false }, err e))))
          × (receive_handler other_error remote raw_packet server
              ≡ (record server { receiving = true }, ok tt))
    unfolding receive_handler
    receive_handler-serving server handler remote raw_packet h bytes =
        let datagram = take max_packet_size raw_packet in
        (
          handled_or_thrown handler server remote _ datagram (
              subst
                (λ t.
                  IsHandled (server_handler (some handler)) ServerStep (HandlerThrows handler)
                    remote datagram server.requests server.received_statistic
                    (receive_packet (server_handler t) remote datagram server.requests
                      server.received_statistic))
                (sym h)
                (receive_packet-server handler remote datagram server.received_statistic
                  server.requests (All-take IsByte max_packet_size raw_packet bytes))),
          refl,
        )
