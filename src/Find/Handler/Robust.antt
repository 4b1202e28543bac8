-- ===== src/Find/Handler/Robust.antt =====
-- Any datagram: no exception leaves the packet handling of the server and of the query, whatever
-- bytes arrive.
use arinc_615a_gui_tool_suit.Base.{
  ◌<◌, ◌≡◌, ◌⊎◌, refl, inl, inr, List, [], ◌∷◌, ◌++◌, arith, Bytes, true, ltb, ◌||◌, some, Result,
  ok, err, Error, arinc_615a_exception, invalid_find_packet, helper_exception, out_of_range,
  system_error, length, All, Bool-cases,
}
use arinc_615a_gui_tool_suit.RawData.{RawData, IsByte}
use arinc_615a_gui_tool_suit.Files.Text.{is_empty}
use arinc_615a_gui_tool_suit.Find.Packet.{
  Opcode, information_request, information_answer, invalid, Packet, packet_type, decode,
  known_opcode,
}
use arinc_615a_gui_tool_suit.Find.Packet.RoundTrip.{IsPacket, encode-decode_packet}
use arinc_615a_gui_tool_suit.Find.Packet.Ordinary.{decode-IsOrdinary}
use arinc_615a_gui_tool_suit.Find.Handler.{
  Statistic, count_packet, Handler, receive_packet, dispatch, server_handler, query_handler,
  call_handler, server_request, query_answer, TargetInformation,
}
use arinc_615a_gui_tool_suit.Find.Handler.Delivery.{server_request_lem}

-- What the functions of a handler do to its state. That for requests may throw, for a reason that
-- `Throws` names.
pub record IsTotal {R S : Type 0} (h : Handler R S) (Step : R → Opcode → S → S → Type 0)
    (Throws : R → Error → Type 0) : Type 0 where
  pub on_request_total :
      (remote : R) (p : Packet) (s : S)
      → IsPacket p
      → ((s' : S) × (h.on_request remote p s ≡ ok s') × Step remote information_request s s')
        ⊎ ((e : Error) × (h.on_request remote p s ≡ err e) × Throws remote e)
  pub on_answer_total :
      (remote : R) (p : Packet) (s : S)
      → IsPacket p
      → (s' : S) × (h.on_answer remote p s ≡ ok s') × Step remote information_answer s s'
  pub on_invalid_total :
      (remote : R) (raw_packet : Bytes) (s : S)
      → (s' : S) × (h.on_invalid remote raw_packet s ≡ ok s') × Step remote invalid s s'

-- The datagram is handled without an exception, as one packet of some type, or the handler throws.
abbrev pub IsHandled :
    {R S : Type 0} ⦃lib : RawData⦄
    → Handler R S
    → (R → Opcode → S → S → Type 0)
    → (R → Error → Type 0)
    → R
    → Bytes
    → S
    → Statistic
    → Result (S × Statistic)
    → Type 0
IsHandled {R} {S} h Step Throws remote raw_packet s statistic r =
    ((type : Opcode) × (s' : S) × (r ≡ ok (s', count_packet type (length raw_packet) statistic))
      × Step remote type s s')
    ⊎ ((e : Error) × (r ≡ err e) × Throws remote e)

module _ ⦃lib : RawData⦄ {R S : Type 0} (h : Handler R S) (Step : R → Opcode → S → S → Type 0)
    (Throws : R → Error → Type 0) (total : IsTotal h Step Throws) where
  open lib use {get_int, get_int_reads}

  -- An exception of the handler passes, except for one that the dispatch catches.
  thrown :
      (e : Error) (remote : R) (raw_packet : Bytes) (s : S) (statistic : Statistic) (p : Packet)
      → decode raw_packet ≡ ok p
      → h.on_request remote p s ≡ err e
      → Throws remote e
      → IsHandled h Step Throws remote raw_packet s statistic
          (dispatch h information_request remote raw_packet s statistic)
  thrown invalid_find_packet remote raw_packet s statistic p d q throws =
      let (s', e, step) = total.on_invalid_total remote raw_packet s in
      inl (invalid, s', rw d (rw (q, e)), step)
  thrown arinc_615a_exception remote raw_packet s statistic p d q throws =
      inr (arinc_615a_exception, rw d (rw q), throws)
  thrown helper_exception remote raw_packet s statistic p d q throws =
      inr (helper_exception, rw d (rw q), throws)
  thrown out_of_range remote raw_packet s statistic p d q throws =
      inr (out_of_range, rw d (rw q), throws)
  thrown system_error remote raw_packet s statistic p d q throws =
      inr (system_error, rw d (rw q), throws)

  dispatch_total :
      (type : Opcode) (remote : R) (raw_packet : Bytes) (s : S) (statistic : Statistic)
      → All IsByte raw_packet
      → IsHandled h Step Throws remote raw_packet s statistic
          (dispatch h type remote raw_packet s statistic)
  dispatch_total invalid remote raw_packet s statistic bytes =
      let (s', e, step) = total.on_invalid_total remote raw_packet s in
      inl (invalid, s', rw e, step)
  dispatch_total information_request remote raw_packet s statistic bytes =
      elim (decode-IsOrdinary raw_packet bytes) [
        | inl (p, d) ↦
            elim (total.on_request_total remote p s (encode-decode_packet raw_packet p d).0) [
              | inl (s', e, step) ↦ inl (information_request, s', rw d (rw e), step)
              | inr (e, q, throws) ↦ thrown e remote raw_packet s statistic p d q throws
            ]
        | inr d ↦
            let (s', e, step) = total.on_invalid_total remote raw_packet s in
            inl (invalid, s', rw d (rw e), step)
      ]
  dispatch_total information_answer remote raw_packet s statistic bytes =
      elim (decode-IsOrdinary raw_packet bytes) [
        | inl (p, d) ↦
            let (s', e, step) =
              total.on_answer_total remote p s (encode-decode_packet raw_packet p d).0 in
            inl (information_answer, s', rw d (rw e), step)
        | inr d ↦
            let (s', e, step) = total.on_invalid_total remote raw_packet s in
            inl (invalid, s', rw d (rw e), step)
      ]

  packet_type_total :
      (raw_packet : Bytes)
      → All IsByte raw_packet
      → (type : Opcode) × (packet_type raw_packet ≡ ok type)
  unfolding packet_type
  packet_type_total raw_packet bytes = elim (Bool-cases (ltb (length raw_packet) 2)) [
    | inl short ↦ (invalid, rw short)
    | inr long ↦
        let (v, e) = get_int_reads 2 raw_packet bytes (ground (arith, long)) in
        (known_opcode v, rw (long, e))
  ]

  pub receive_packet_total :
      (remote : R) (raw_packet : Bytes) (s : S) (statistic : Statistic)
      → All IsByte raw_packet
      → IsHandled h Step Throws remote raw_packet s statistic
          (receive_packet h remote raw_packet s statistic)
  unfolding receive_packet
  receive_packet_total remote raw_packet s statistic bytes =
      let (type, e) = packet_type_total raw_packet bytes in
      rw e (dispatch_total type remote raw_packet s statistic bytes)

-- The request handler is called for a request only, at most once, with the sender.
abbrev pub ServerStep : {R : Type 0} → R → Opcode → List R → List R → Type 0
ServerStep remote type calls calls' =
    (calls' ≡ calls) ⊎ ((type ≡ information_request) × (calls' ≡ calls ++ (remote ∷ [])))

-- The response handler is called for an answer only, at most once, with the sender's address.
abbrev pub QueryStep :
    {R A : Type 0} (address : R → A)
    → R
    → Opcode
    → List (A × TargetInformation)
    → List (A × TargetInformation)
    → Type 0
QueryStep address remote type calls calls' =
    (calls' ≡ calls)
    ⊎ ((type ≡ information_answer)
        × ((information : TargetInformation) × (calls'
              ≡ calls ++ ((address remote, information) ∷ []))))

module _ {R : Type 0} (handler : R → Result (Unit {0})) where
  -- What the request handler throws.
  abbrev pub HandlerThrows : R → Error → Type 0
  HandlerThrows remote e = handler remote ≡ err e

  called_total :
      (remote : R) (calls : List R) (r : Result (Unit {0}))
      → handler remote ≡ r
      → ((calls' : List R) × (call_handler (some handler) remote calls ≡ ok calls')
          × ServerStep remote information_request calls calls')
        ⊎ ((e : Error) × (call_handler (some handler) remote calls ≡ err e)
            × HandlerThrows remote e)
  called_total remote calls (ok done) h = inl (calls ++ (remote ∷ []), rw h, inr (refl, refl))
  called_total remote calls (err e) h = inr (e, rw h, h)

  parameters_total :
      (remote : R) (opcode : Opcode) (ps : List Bytes) (calls : List R)
      → 0 < length ps
      → let r =
          server_request
            (some handler)
            remote
            (record { opcode = opcode; parameters = ps })
            calls in
        ((calls' : List R) × (r ≡ ok calls') × ServerStep remote information_request calls calls')
        ⊎ ((e : Error) × (r ≡ err e) × HandlerThrows remote e)
  parameters_total remote opcode [] calls h = absurd (omega arith)
  parameters_total remote opcode (first ∷ more) calls h =
      elim (Bool-cases (is_empty more || is_empty first)) [
        | inl e ↦
            rw (server_request_lem (some handler) remote opcode first more calls, e)
              (called_total remote calls (handler remote) refl)
        | inr e ↦ inl (
          calls,
          rw (server_request_lem (some handler) remote opcode first more calls, e),
          inl refl,
        )
      ]

  server-IsTotal : IsTotal (server_handler (some handler)) ServerStep HandlerThrows
  server-IsTotal = record {
    on_request_total =
        λ remote p calls h. parameters_total remote p.opcode p.parameters calls h.some_parameter;
    on_answer_total = λ remote p s h. (s, refl, inl refl);
    on_invalid_total = λ remote raw_packet s. (s, refl, inl refl);
  }

  module _ ⦃lib : RawData⦄ (remote : R) (raw_packet : Bytes) (statistic : Statistic) where
    -- Whatever bytes a server with a request handler receives: the datagram is counted once, as some
    -- type of packet, and the request handler is not called, or it is a request and the handler is
    -- called once, for the sender; or the handler throws an exception, which leaves the packet
    -- handling.
    pub receive_packet-server :
        (calls : List R)
        → All IsByte raw_packet
        → IsHandled
            (server_handler (some handler))
            ServerStep
            HandlerThrows
            remote
            raw_packet
            calls
            statistic
            (receive_packet (server_handler (some handler)) remote raw_packet calls statistic)
    receive_packet-server calls =
        receive_packet_total (server_handler (some handler)) ServerStep HandlerThrows server-IsTotal
          remote raw_packet calls statistic

module _ {R A : Type 0} (address : R → A) where
  fields_total :
      (remote : R) (opcode : Opcode) (ps : List Bytes) (calls : List (A × TargetInformation))
      → (calls' : List (A × TargetInformation)) × (query_answer address true remote
            (record { opcode = opcode; parameters = ps })
            calls
          ≡ ok calls')
        × QueryStep address remote information_answer calls calls'
  unfolding query_answer
  fields_total remote opcode [] calls = (calls, refl, inl refl)
  fields_total remote opcode (a ∷ []) calls = (calls, refl, inl refl)
  fields_total remote opcode (a ∷ b ∷ []) calls = (calls, refl, inl refl)
  fields_total remote opcode (a ∷ b ∷ c ∷ []) calls = (calls, refl, inl refl)
  fields_total remote opcode (a ∷ b ∷ c ∷ d ∷ []) calls = (calls, refl, inl refl)
  fields_total remote opcode (a ∷ b ∷ c ∷ d ∷ e ∷ []) calls = (_, refl, inr (refl, (_, refl)))
  fields_total remote opcode (a ∷ b ∷ c ∷ d ∷ e ∷ f ∷ more) calls = (calls, ground arith, inl refl)

  -- Nothing is thrown.
  abbrev Never : R → Error → Type 0
  Never remote e = ⊥

  answer_total :
      (remote : R) (p : Packet) (calls : List (A × TargetInformation))
      → IsPacket p
      → (calls' : List (A × TargetInformation)) × (query_answer address true remote p calls
          ≡ ok calls')
        × QueryStep address remote information_answer calls calls'
  answer_total remote p calls h = fields_total remote p.opcode p.parameters calls

  query-IsTotal : IsTotal (query_handler address true) (QueryStep address) Never
  query-IsTotal = record {
    on_request_total = λ remote p s h. inl (s, refl, inl refl);
    on_answer_total = answer_total;
    on_invalid_total = λ remote raw_packet s. (s, refl, inl refl);
  }

  module _ ⦃lib : RawData⦄ (remote : R) (raw_packet : Bytes) (statistic : Statistic) where
    -- Whatever bytes a query with a response handler receives, no exception leaves its packet handling: the datagram is
    -- counted once, as some type of packet, and the response handler is not called, or it is an
    -- answer and the handler is called once, with the sender's address.
    pub receive_packet-query_robust :
        (calls : List (A × TargetInformation))
        → All IsByte raw_packet
        → (type : Opcode) × (calls' : List (A × TargetInformation)) × (receive_packet
              (query_handler address true)
              remote
              raw_packet
              calls
              statistic
            ≡ ok (calls', count_packet type (length raw_packet) statistic))
          × QueryStep address remote type calls calls'
    receive_packet-query_robust calls bytes =
        elim (receive_packet_total (query_handler address true) (QueryStep address) Never
          query-IsTotal remote raw_packet calls statistic bytes) [
            | inl handled ↦ handled
            | inr (e, q, never) ↦ absurd never
          ]
