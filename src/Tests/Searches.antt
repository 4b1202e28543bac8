-- ===== src/Tests/Searches.antt =====
-- Instances of the properties of the search for targets.
use arinc_615a_gui_tool_suit.Base.{
  Result, Error, err, system_error, some, ◌⊎◌, ◌≤◌, length, ℕ, ◌+◌, ◌≡◌, refl, true, false, [], ◌∷◌,
  ◌++◌, Bytes, ok, arith,
}
use arinc_615a_gui_tool_suit.BigEndian.{big_endian}
use arinc_615a_gui_tool_suit.Find.Packet.{empty_packet, encode, information_request}
use arinc_615a_gui_tool_suit.Find.Handler.{TargetInformation, answer_packet, reset}
use arinc_615a_gui_tool_suit.Find.Query
use arinc_615a_gui_tool_suit.Find.Query.{
  no_error, other_error, all_closed, not_closed, not_cancelled, start, abort, timer_handler,
  receive_handler,
}
use arinc_615a_gui_tool_suit.Find.Query.Runs.{
  as_number, Run, started, timed_out, aborted, Run-completed, abort-again,
  receive_handler-receiving,
}
use arinc_615a_gui_tool_suit.Find.Server
use arinc_615a_gui_tool_suit.Find.Server.{response, receive_handler-serving}
use arinc_615a_gui_tool_suit.Find.Exchange.{query-answered, request-stops}
use arinc_615a_gui_tool_suit.Tests.Data.{test_123, load_name}

-- Addresses and endpoints are numbers.
abbrev query : Query.Query ℕ
query = record {
  has_response_handler = true;
  has_completion_handler = true;
  sent = [];
  responses = [];
  completed = 0;
  receiving = false;
  timing = false;
  timer_cancelled = false;
  received_statistic = reset;
  transmitted_statistic = reset;
}

-- Request handlers that end, and that cannot send.
abbrev quiet : ℕ → Result (Unit {0})
quiet r = ok tt

abbrev failing : ℕ → Result (Unit {0})
failing r = err system_error

abbrev server : Server.Server ℕ
server = record {
  request_handler = some quiet;
  open_socket = true;
  receiving = true;
  requests = [];
  sent = [];
  received_statistic = reset;
  transmitted_statistic = reset;
}

abbrev information : TargetInformation
information = record {
  thw_id = load_name;
  thw_type_name = test_123;
  thw_position = 76 ∷ [];
  literal_name = [];
  manufacturer_code = load_name;
}

-- A request, which a query ignores.
abbrev raw_request : Bytes
raw_request = 0 ∷ 1 ∷ 0 ∷ 0x10 ∷ []

address : ℕ → ℕ
address r = r + 1

-- The query is started and aborted while the handler of its timer is already called.
abbrev late_query : Query.Query ℕ
late_query = (timer_handler no_error true (abort not_closed (start true true query).0).0).0

late_query-Run : Run address query late_query 1 1
unfolding start abort
late_query-Run = timed_out no_error true (aborted not_closed started) refl (λ e. cc)

Run-completed_example :
    (late_query.completed ≡ 2)
    × (as_number late_query.timing + 1 ≤ 1)
    × (1 ≤ as_number late_query.timing + 1 + 1)
Run-completed_example = Run-completed address refl refl late_query-Run

abort-again_example :
    ((abort not_cancelled (timer_handler no_error true query).0).0.completed ≡ 2)
    × ((abort not_cancelled (abort all_closed query).0).0.completed ≡ 2)
abort-again_example =
    abort-again address query no_error true all_closed not_cancelled refl (λ e. cc)

receive_handler-receiving_example :
    ((receive_handler address no_error 5 raw_request query).1 ≡ ok tt)
    × ((receive_handler address no_error 5 raw_request query).0.receiving ≡ true)
    × (receive_handler address other_error 5 raw_request query
        ≡ (record query { receiving = true }, ok tt))
receive_handler-receiving_example =
    receive_handler-receiving address query 5 raw_request refl (ground arith)

receive_handler-serving_example :
    let r = Server.receive_handler no_error 5 raw_request server in
    (((r.1 ≡ ok tt) × (r.0.receiving ≡ true))
      ⊎ ((e : Error) × (quiet 5 ≡ err e) × (r ≡ (record server { receiving = false }, err e))))
    × (Server.receive_handler other_error 5 raw_request server
        ≡ (record server { receiving = true }, ok tt))
receive_handler-serving_example =
    receive_handler-serving server quiet 5 raw_request refl (ground arith)

abbrev failing_server : Server.Server ℕ
failing_server = record server { request_handler = some failing }

failing-response : err system_error ≡ (response false 5 information failing_server).1
unfolding response
failing-response = refl

request-stops_example :
    Server.receive_handler no_error 5 (encode (empty_packet information_request 1)) failing_server
    ≡ (record failing_server { receiving = false }, err system_error)
request-stops_example =
    request-stops 5 information failing_server failing_server failing refl failing-response

answer-fits : length (encode (answer_packet information)) ≤ 1024
unfolding encode
answer-fits = omega arith

query-answered_example :
    let waiting = (start true true query).0 in
    let asked =
      (Server.receive_handler no_error 8 (encode (empty_packet information_request 1)) server).0 in
    let (answered, result) = response true 8 information asked in
    let found =
      (receive_handler address no_error 5 (encode (answer_packet information)) waiting).0 in
    (waiting.sent ≡ [] ++ encode (empty_packet information_request 1) ∷ [])
    × (asked.requests ≡ [] ++ 8 ∷ [])
    × (asked.sent ≡ [])
    × (asked.receiving ≡ true)
    × (result ≡ ok tt)
    × (answered.sent ≡ asked.sent ++ (8, encode (answer_packet information)) ∷ [])
    × (found.responses ≡ waiting.responses ++ (address 5, information) ∷ [])
    × (found.receiving ≡ true)
    × (found.completed ≡ waiting.completed)
unfolding start
query-answered_example =
    query-answered address query (start true true query).0 server
      (Server.receive_handler no_error 8 (encode (empty_packet information_request 1)) server).0 8 5
      information quiet refl refl refl (ground arith) answer-fits
