-- ===== src/Find/Handler.antt =====
-- The dispatch of received FIND packets (lib/arinc_615a/find/packets/PacketHandler.cpp,
-- PacketStatistic.cpp), with its two users: the server
-- (lib/arinc_615a/find/servers/implementation/ServerImpl.cpp) and the query
-- (lib/arinc_615a/find/clients/implementation/QueryImpl.cpp).
pub mod Delivery
pub mod Robust
pub mod Total
use arinc_615a_gui_tool_suit.Base.{
  ℕ, ◌+◌, ◌%◌, ◌^◌, List, [], ◌∷◌, ◌++◌, Bytes, Bool, true, false, not, ◌&&◌, Option, none, some,
  ◌==◌, if◌then◌else◌, get_elem?, Result, ok, err, Error, arinc_615a_exception, invalid_find_packet,
  helper_exception, out_of_range, system_error, continue, length,
}
use arinc_615a_gui_tool_suit.RawData.{RawData}
use arinc_615a_gui_tool_suit.Files.Text.{is_empty}
use arinc_615a_gui_tool_suit.Find.Packet.{
  Opcode, information_request, information_answer, invalid, Packet, packet_type, decode, encode,
}

-- `PacketStatistic`: for each opcode the number of packets and of their bytes (`size_t`).
abbrev pub Statistic : Type 0
Statistic = Opcode → ℕ × ℕ

abbrev same_opcode : Opcode → Opcode → Bool
same_opcode information_request information_request = true
same_opcode information_answer information_answer = true
same_opcode invalid invalid = true
same_opcode _ _ = false

-- `PacketStatistic::packet`
pub count_packet : Opcode → ℕ → Statistic → Statistic
count_packet type size statistic other =
    if same_opcode type other
    then (((statistic other).0 + 1) % 2 ^ 64, ((statistic other).1 + size) % 2 ^ 64)
    else statistic other

-- `PacketStatistic::total`: an opcode that is not in the map counts nothing.
pub total : Statistic → ℕ × ℕ
total statistic = (
  ((statistic information_request).0 + (statistic information_answer).0 + (statistic invalid).0)
      % 2 ^ 64,
  ((statistic information_request).1 + (statistic information_answer).1 + (statistic invalid).1)
      % 2 ^ 64,
)

-- `PacketStatistic::reset`, and a new statistic.
abbrev pub reset : Statistic
reset = λ type. (0, 0)

-- `Packet::parameter`, with the exception of `std::vector::at`.
abbrev pub at : Option Bytes → Result Bytes
at none = err out_of_range
at (some parameter) = ok parameter

abbrev pub parameter : Packet → ℕ → Result Bytes
parameter packet position = at (get_elem? packet.parameters position)

-- The virtual functions of a packet handler; `S` is what they change, `R` an endpoint.
pub record Handler (R S : Type 0) : Type 0 where
  pub on_request : R → Packet → S → Result S
  pub on_answer : R → Packet → S → Result S
  pub on_invalid : R → Bytes → S → Result S

module _ {R S : Type 0} ⦃lib : RawData⦄ (h : Handler R S) where
  -- `catch ( const InvalidFindPacket & )`: any other exception passes.
  abbrev catch_invalid : R → Bytes → S → Statistic → Result (S × Statistic) → Result (S × Statistic)
  catch_invalid remote raw_packet s statistic (ok done) = ok done
  catch_invalid remote raw_packet s statistic (err invalid_find_packet) =
      continue (h.on_invalid remote raw_packet s)
        (λ s'. ok (s', count_packet invalid (length raw_packet) statistic))
  catch_invalid remote raw_packet s statistic (err arinc_615a_exception) = err arinc_615a_exception
  catch_invalid remote raw_packet s statistic (err helper_exception) = err helper_exception
  catch_invalid remote raw_packet s statistic (err out_of_range) = err out_of_range
  catch_invalid remote raw_packet s statistic (err system_error) = err system_error

  -- The cases of the `switch` on the packet type.
  abbrev pub dispatch : Opcode → R → Bytes → S → Statistic → Result (S × Statistic)
  dispatch information_request remote raw_packet s statistic =
      catch_invalid remote raw_packet s statistic (
        continue (decode raw_packet) λ packet.
          continue (h.on_request remote packet s)
            λ s'. ok (s', count_packet information_request (length raw_packet) statistic))
  dispatch information_answer remote raw_packet s statistic =
      catch_invalid remote raw_packet s statistic (
        continue (decode raw_packet) λ packet.
          continue (h.on_answer remote packet s)
            λ s'. ok (s', count_packet information_answer (length raw_packet) statistic))
  dispatch invalid remote raw_packet s statistic =
      continue (h.on_invalid remote raw_packet s)
        λ s'. ok (s', count_packet invalid (length raw_packet) statistic)

  -- `PacketHandler::packet`
  unfoldable pub receive_packet : R → Bytes → S → Statistic → Result (S × Statistic)
  receive_packet remote raw_packet s statistic =
      continue (packet_type raw_packet) λ type. dispatch type remote raw_packet s statistic

-- `TargetInformation`
pub record TargetInformation : Type 0 where
  pub thw_id : Bytes
  pub thw_type_name : Bytes
  pub thw_position : Bytes
  pub literal_name : Bytes
  pub manufacturer_code : Bytes

-- The packet that `ServerImpl::response` sends.
abbrev pub answer_packet : TargetInformation → Packet
answer_packet information = record {
  opcode = information_answer;
  parameters =
      information.thw_id ∷ information.thw_type_name ∷ information.thw_position
      ∷ information.literal_name ∷ information.manufacturer_code ∷ [];
}

module _ {R : Type 0} where
  -- The call of the request handler, if there is one, which ends or throws. The list holds the calls
  -- that ended.
  abbrev pub call_handler : Option (R → Result (Unit {0})) → R → List R → Result (List R)
  call_handler none remote calls = ok calls
  call_handler (some handler) remote calls =
      continue (handler remote) λ done. ok (calls ++ (remote ∷ []))

  -- `ServerImpl::informationRequestPacket`
  unfoldable pub server_request :
      Option (R → Result (Unit {0})) → R → Packet → List R → Result (List R)
  server_request handler remote request calls =
      let called = call_handler handler remote calls in
      if length request.parameters == 1
      then called
      else continue (parameter request 0) λ first. if not (is_empty first) then ok calls else called

  abbrev pub server_handler : Option (R → Result (Unit {0})) → Handler R (List R)
  server_handler handler = record {
    on_request = server_request handler;
    on_answer = λ remote answer calls. ok calls;
    on_invalid = λ remote raw_packet calls. ok calls;
  }

module _ {R A : Type 0} (address : R → A) where
  -- `QueryImpl::informationAnswerPacket`, with the calls of the response handler as a list;
  -- `address` is `remote.address()`.
  unfoldable pub query_answer :
      Bool → R → Packet → List (A × TargetInformation) → Result (List (A × TargetInformation))
  query_answer has_handler remote answer calls =
      if not (length answer.parameters == 5)
      then ok calls
      else continue (parameter answer 0) λ thw_id. continue (parameter answer 1) λ thw_type_name.
        continue (parameter answer 2) λ thw_position. continue (parameter answer 3) λ literal_name.
          continue (parameter answer 4) λ manufacturer_code.
            let information : TargetInformation = record {
              thw_id = thw_id;
              thw_type_name = thw_type_name;
              thw_position = thw_position;
              literal_name = literal_name;
              manufacturer_code = manufacturer_code;
            } in
            ok (if has_handler then calls ++ ((address remote, information) ∷ []) else calls)

  abbrev pub query_handler : Bool → Handler R (List (A × TargetInformation))
  query_handler has_handler = record {
    on_request = λ remote request calls. ok calls;
    on_answer = query_answer has_handler;
    on_invalid = λ remote raw_packet calls. ok calls;
  }
