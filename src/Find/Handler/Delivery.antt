-- ===== src/Find/Handler/Delivery.antt =====
-- What reaches the server and the query when packets are received.
use arinc_615a_gui_tool_suit.Base.{
  List, concat_map, if◌then◌else◌, ◌||◌, ◌≡◌, refl, [], ◌∷◌, ◌++◌, arith, Bytes, true, false, ltb,
  Option, some, Result, ok, err, invalid_find_packet, system_error, length, All, length-append,
  append_assoc,
}
use arinc_615a_gui_tool_suit.RawData.{RawData}
use arinc_615a_gui_tool_suit.Files.Text.{is_empty}
use arinc_615a_gui_tool_suit.Files.Text.RoundTrip.{IsText}
use arinc_615a_gui_tool_suit.Find.Packet.{
  Opcode, information_request, information_answer, invalid, opcode_value, Packet, packet_type,
  decode, encode, empty_packet, packet_terminator, known_opcode,
}
use arinc_615a_gui_tool_suit.Find.Packet.RoundTrip.{
  decode-encode_packet, encode-decode_packet, encode-packet_bytes, packet_bytes, opcode_value-lt,
}
use arinc_615a_gui_tool_suit.Find.Packet.Scan.{terminated}
use arinc_615a_gui_tool_suit.Find.Handler.{
  Statistic, count_packet, Handler, receive_packet, TargetInformation, answer_packet,
  server_handler, query_handler, call_handler, server_request, query_answer, dispatch,
}

known_opcode_value : (opcode : Opcode) → known_opcode (opcode_value opcode) ≡ opcode
known_opcode_value information_request = refl
known_opcode_value information_answer = refl
known_opcode_value invalid = refl

-- The handler's function for the packets of an opcode.
abbrev pub on_packet : {R S : Type 0} → Handler R S → Opcode → R → Packet → S → Result S
on_packet h information_request = h.on_request
on_packet h information_answer = h.on_answer
on_packet h invalid = λ remote packet s. err invalid_find_packet

pub server_request_lem :
    {R : Type 0} (handler : Option (R → Result (Unit {0}))) (remote : R) (opcode : Opcode)
    (first : Bytes) (more : List Bytes) (calls : List R)
    → server_request handler remote (record { opcode = opcode; parameters = first ∷ more }) calls
      ≡ (if is_empty more || is_empty first then call_handler handler remote calls else ok calls)
unfolding server_request
server_request_lem handler remote opcode first [] calls = refl
server_request_lem handler remote opcode [] (q ∷ more) calls = ground arith
server_request_lem handler remote opcode (c ∷ first) (q ∷ more) calls = ground arith

module _ ⦃lib : RawData⦄ where
  open lib use {int_bytes, get_int-int_bytes, length-int_bytes}

  packet_type-encode : (p : Packet) → packet_type (encode p) ≡ ok p.opcode
  unfolding packet_type
  packet_type-encode p =
      let text : Bytes = concat_map terminated p.parameters in
      let long : ltb (length (packet_bytes p ++ packet_terminator ∷ [])) 2 ≡ false = ground (
        arith,
        length-append (packet_bytes p) (packet_terminator ∷ []),
        length-append (int_bytes 2 (opcode_value p.opcode)) text,
        length-int_bytes 2 (opcode_value p.opcode),
      ) in
      rw (encode-packet_bytes p, long)
        (rw (append_assoc (int_bytes 2 (opcode_value p.opcode))) (
          rw (get_int-int_bytes 2 (opcode_value p.opcode) _ (opcode_value-lt p.opcode))
            (rw (known_opcode_value p.opcode))))

  -- The packet of a query has four bytes.
  pub length-request : length (encode (empty_packet information_request 1)) ≡ 4
  length-request =
      let p : Packet = empty_packet information_request 1 in
      rw (encode-packet_bytes p) (
        omega (
          arith,
          length-append (packet_bytes p) (packet_terminator ∷ []),
          length-append (int_bytes 2 1) (0 ∷ []),
          length-int_bytes 2 1,
        ))

  module _ {R S : Type 0} (h : Handler R S) where
    dispatch-decode :
        (opcode : Opcode) (remote : R) (raw_packet : Bytes) (s s' : S) (statistic : Statistic)
        (p : Packet)
        → decode raw_packet ≡ ok p
        → on_packet h opcode remote p s ≡ ok s'
        → dispatch h opcode remote raw_packet s statistic
          ≡ ok (s', count_packet opcode (length raw_packet) statistic)
    dispatch-decode information_request remote raw_packet s s' statistic p d e = rw d (rw e)
    dispatch-decode information_answer remote raw_packet s s' statistic p d e = rw d (rw e)
    dispatch-decode invalid remote raw_packet s s' statistic p d e = cc

    -- A datagram that decodes to a packet reaches the handler's function for the packet's opcode,
    -- where that function ends well, and is counted under that opcode with its size.
    receive_packet-decode :
        (remote : R) (raw_packet : Bytes) (s s' : S) (statistic : Statistic) (p : Packet)
        → decode raw_packet ≡ ok p
        → on_packet h p.opcode remote p s ≡ ok s'
        → receive_packet h remote raw_packet s statistic
          ≡ ok (s', count_packet p.opcode (length raw_packet) statistic)
    unfolding receive_packet
    receive_packet-decode remote raw_packet s s' statistic p d e =
        let (_, bytes) = encode-decode_packet raw_packet p d in
        rw (← bytes, packet_type-encode p)
          (rw bytes (dispatch-decode p.opcode remote raw_packet s s' statistic p d e))

  module _ {R : Type 0} (remote : R) where
    request_answered :
        (handler : R → Result (Unit {0})) (first : Bytes) (more : List Bytes) (calls : List R)
        → handler remote ≡ ok tt
        → server_request
            (some handler)
            remote
            (record { opcode = information_request; parameters = first ∷ more })
            calls
          ≡ ok (if is_empty more || is_empty first then calls ++ (remote ∷ []) else calls)
    request_answered handler first more calls quiet =
        rw (server_request_lem (some handler) remote information_request first more calls, quiet)
          (ground arith)

    -- A request of one parameter is answered whatever that parameter holds; a request of more
    -- parameters is answered if the first of them is empty, and left without an answer otherwise.
    -- No parameter holds a NULL, and the server has a request handler, which throws nothing.
    pub receive_packet-request :
        (handler : R → Result (Unit {0})) (first : Bytes) (more : List Bytes) (calls : List R)
        (statistic : Statistic)
        → handler remote ≡ ok tt
        → All IsText (first ∷ more)
        → receive_packet
            (server_handler (some handler))
            remote
            (encode (record { opcode = information_request; parameters = first ∷ more }))
            calls
            statistic
          ≡ ok (
            (if is_empty more || is_empty first then calls ++ (remote ∷ []) else calls),
            count_packet information_request
                (length
                  (encode (record { opcode = information_request; parameters = first ∷ more })))
                statistic,
          )
    receive_packet-request handler first more calls statistic quiet texts =
        let p : Packet = record { opcode = information_request; parameters = first ∷ more } in
        receive_packet-decode (server_handler (some handler)) remote (encode p) calls _ statistic p
          (decode-encode_packet p
            (record { known = λ e. cc; some_parameter = omega arith; texts = texts }))
          (request_answered handler first more calls quiet)

    -- An exception of the socket in the request handler leaves the packet handling.
    pub receive_packet-system_error :
        (handler : R → Result (Unit {0})) (calls : List R) (statistic : Statistic)
        → handler remote ≡ err system_error
        → receive_packet
            (server_handler (some handler))
            remote
            (encode (empty_packet information_request 1))
            calls
            statistic
          ≡ err system_error
    unfolding receive_packet
    receive_packet-system_error handler calls statistic throws =
        let p : Packet = empty_packet information_request 1 in
        rw (packet_type-encode p) (
          rw
            (decode-encode_packet p
              (record { known = λ e. cc; some_parameter = omega arith; texts = (tt, tt) }))
            (rw (server_request_lem (some handler) remote information_request [] [] calls, throws)))

    -- The packet that a query sends makes a server call its request handler, which throws nothing,
    -- once, for the sender, and is counted as a request of four bytes.
    pub receive_packet-query :
        (handler : R → Result (Unit {0})) (calls : List R) (statistic : Statistic)
        → handler remote ≡ ok tt
        → receive_packet
            (server_handler (some handler))
            remote
            (encode (empty_packet information_request 1))
            calls
            statistic
          ≡ ok (calls ++ (remote ∷ []), count_packet information_request 4 statistic)
    receive_packet-query handler calls statistic quiet =
        rw (receive_packet-request handler [] [] calls statistic quiet (tt, tt), length-request)

    -- The answer of a server, whose five fields are texts without a NULL, reaches the response
    -- handler of a query with these five fields and the server's address, and is counted as an answer.
    pub receive_packet-answer :
        {A : Type 0} (address : R → A) (information : TargetInformation)
        (calls : List (A × TargetInformation)) (statistic : Statistic)
        → All IsText (answer_packet information).parameters
        → receive_packet
            (query_handler address true)
            remote
            (encode (answer_packet information))
            calls
            statistic
          ≡ ok (
            calls ++ ((address remote, information) ∷ []),
            count_packet information_answer (length (encode (answer_packet information))) statistic,
          )
    unfolding query_answer
    receive_packet-answer address information calls statistic texts =
        let p : Packet = answer_packet information in
        receive_packet-decode (query_handler address true) remote (encode p) calls _ statistic p
          (decode-encode_packet p
            (record { known = λ e. cc; some_parameter = omega arith; texts = texts }))
          refl
