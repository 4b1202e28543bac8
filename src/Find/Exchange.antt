-- ===== src/Find/Exchange.antt =====
-- A FIND query and a FIND server together: the search for targets.
use arinc_615a_gui_tool_suit.Base.{
  ◌≤◌, ◌≡◌, refl, take_all, take, arith, Result, err, system_error, some, true, false, [], ◌∷◌,
  ◌++◌, All, length, ok,
}
use arinc_615a_gui_tool_suit.RawData.{RawData}
use arinc_615a_gui_tool_suit.Files.Text.RoundTrip.{IsText}
use arinc_615a_gui_tool_suit.Find.Packet.{empty_packet, encode, information_request}
use arinc_615a_gui_tool_suit.Find.Handler.{
  TargetInformation, answer_packet, receive_packet, server_handler, count_packet,
}
use arinc_615a_gui_tool_suit.Find.Handler.Delivery.{
  receive_packet-query, receive_packet-answer, receive_packet-system_error, length-request,
}
use arinc_615a_gui_tool_suit.Find.Query
use arinc_615a_gui_tool_suit.Find.Query.{no_error, start, receive_handler, max_packet_size}
use arinc_615a_gui_tool_suit.Find.Server
use arinc_615a_gui_tool_suit.Find.Server.{response}

-- The packet of a query fits into the buffer of a server.
request-fits :
    ⦃lib : RawData⦄
    → take max_packet_size (encode (empty_packet information_request 1))
      ≡ encode (empty_packet information_request 1)
request-fits = take_all max_packet_size _ (rw length-request (omega arith))

request_received :
    ⦃lib : RawData⦄ {R : Type 0} (client : R) (server : Server.Server R)
    (handler : R → Result (Unit {0}))
    → handler client ≡ ok tt
    → receive_packet
        (server_handler (some handler))
        client
        (take max_packet_size (encode (empty_packet information_request 1)))
        server.requests
        server.received_statistic
      ≡ ok (
        server.requests ++ client ∷ [],
        count_packet information_request 4 server.received_statistic,
      )
request_received client server handler quiet =
    rw request-fits
      (receive_packet-query client handler server.requests server.received_statistic quiet)

-- A query asks a server whose request handler ends as the response does that the socket does not
-- send: the exception of the socket leaves the server's function, and the server does not receive
-- any more.
pub request-stops :
    ⦃lib : RawData⦄ {R : Type 0} (client : R) (information : TargetInformation)
    (server serving : Server.Server R) (handler : R → Result (Unit {0}))
    → server.request_handler ≡ some handler
    → handler client ≡ (response false client information serving).1
    → Server.receive_handler no_error client (encode (empty_packet information_request 1)) server
      ≡ (record server { receiving = false }, err system_error)
unfolding Server.receive_handler response
request-stops client information server serving handler h throws = rw (
  h,
  request-fits,
  receive_packet-system_error client handler server.requests server.received_statistic throws,
)

module _ ⦃lib : RawData⦄ {R S A : Type 0} (address : S → A) where
  -- A search. A query that is started sends one packet. A server that receives it, and whose request
  -- handler throws nothing, calls the handler for the sender, once more, answers nothing by itself and
  -- goes on receiving. When the server responds to the sender and the socket sends the packet, it is
  -- one packet to the sender. The information is texts without a NULL, and its packet has 1024 bytes
  -- at most, the size of the buffer of a query. The query with a response handler, and with whatever
  -- it has received until then, that receives this packet calls the handler with the server's address
  -- and the same information, once more, goes on receiving, and does not call its completion handler.
  pub query-answered :
      (q waiting : Query.Query A) (server serving : Server.Server R) (client : R) (target : S)
      (information : TargetInformation) (handler : R → Result (Unit {0}))
      → server.request_handler ≡ some handler
      → handler client ≡ ok tt
      → waiting.has_response_handler ≡ true
      → All IsText (answer_packet information).parameters
      → length (encode (answer_packet information)) ≤ max_packet_size
      → let searching = (start true true q).0 in
        let asked =
          (Server.receive_handler no_error client
            (encode (empty_packet information_request 1))
            server).0 in
        let (answered, result) = response true client information serving in
        let found =
          (receive_handler address no_error target
            (encode (answer_packet information))
            waiting).0 in
        (searching.sent ≡ q.sent ++ encode (empty_packet information_request 1) ∷ [])
        × (asked.requests ≡ server.requests ++ client ∷ [])
        × (asked.sent ≡ server.sent)
        × (asked.receiving ≡ true)
        × (result ≡ ok tt)
        × (answered.sent ≡ serving.sent ++ (client, encode (answer_packet information)) ∷ [])
        × (found.responses ≡ waiting.responses ++ (address target, information) ∷ [])
        × (found.receiving ≡ true)
        × (found.completed ≡ waiting.completed)
  unfolding start receive_handler Server.receive_handler response
  query-answered q waiting server serving client target information handler h quiet k texts fits =
      let asked = request_received client server handler quiet in
      let found =
        receive_packet-answer target address information waiting.responses
          waiting.received_statistic texts in
      let whole = take_all max_packet_size (encode (answer_packet information)) fits in
      (
        refl,
        rw (h, asked),
        rw (h, asked),
        rw (h, asked),
        refl,
        refl,
        rw (k, whole, found),
        rw (k, whole, found),
        rw (k, whole, found),
      )
