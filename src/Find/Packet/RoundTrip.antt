-- ===== src/Find/Packet/RoundTrip.antt =====
-- Decoding and encoding are inverse to each other on packets.
use arinc_615a_gui_tool_suit.Base.{
  ℕ, suc, ◌-◌, ◌<◌, ◌≡◌, ◌≢◌, refl, sym, ap, ◌∙◌, List, [], ◌∷◌, ◌++◌, arith, Bytes, Result, ok,
  invalid_find_packet, Coder, ◌>>=◌, ◌>>◌, lift, pure, check, value_of-eq-ok, lift-eq-ok, >>=-eq-ok,
  check->>-eq-ok, true, ltb, length, take, take_all, drop-eq_nil, All, concat_map, length-append,
  take-append, append_assoc, append-nil, ==_refl, ==→eq,
}
use arinc_615a_gui_tool_suit.RawData.{RawData}
use arinc_615a_gui_tool_suit.Files.Text.RoundTrip.{IsText}
use arinc_615a_gui_tool_suit.Find.Packet.{
  Opcode, invalid, opcode_value, Packet, packet_terminator, known_opcode, ends_with, drop_back,
  scan, checked_opcode, all_text, decode, encode, append_parameters, string_terminator,
}
use arinc_615a_gui_tool_suit.Find.Packet.Scan.{terminated, scan-concat_map, scan_sound}

-- What a packet is: a known opcode, and at least one parameter, none of them with a NULL in it.
pub record IsPacket (p : Packet) : Type 0 where
  pub known : p.opcode ≢ invalid
  pub some_parameter : 0 < length p.parameters
  pub texts : All IsText p.parameters

ends_with-append : (xs : Bytes) (t : ℕ) → ends_with t (xs ++ t ∷ []) ≡ true
ends_with-append [] t = ==_refl t
ends_with-append (x ∷ []) t = ==_refl t
ends_with-append (x ∷ y ∷ xs) t = ends_with-append (y ∷ xs) t

ends_with_sound :
    (xs : Bytes) (t : ℕ) → ends_with t xs ≡ true → xs ≡ take (length xs - 1) xs ++ t ∷ []
ends_with_sound [] t h = cc
ends_with_sound (x ∷ []) t h = ap (λ y. y ∷ []) (==→eq x t h)
ends_with_sound (x ∷ y ∷ xs) t h =
    let e : suc (suc (length xs)) - 1 ≡ suc (suc (length xs) - 1) = omega arith in
    rw e (ap (λ l. x ∷ l) (ends_with_sound (y ∷ xs) t h))

drop_back-append : (xs : Bytes) (t : ℕ) → drop_back (xs ++ t ∷ []) ≡ ok (xs, tt)
unfolding drop_back
drop_back-append xs t =
    let size : length (xs ++ t ∷ []) - 1 ≡ length xs = omega (arith, length-append xs (t ∷ [])) in
    rw (size, take-append xs (t ∷ []) (length xs) refl)

checked-known :
    (opcode : Opcode)
    → opcode ≢ invalid
    → checked_opcode (known_opcode (opcode_value opcode)) ≡ ok opcode
checked-known opcode h = ground arith

checked_sound :
    (value : ℕ) (opcode : Opcode)
    → checked_opcode (known_opcode value) ≡ ok opcode
    → (value ≡ opcode_value opcode) × (opcode ≢ invalid)
checked_sound value opcode h = (ground arith, λ e. ground arith)

pure-parameters :
    (opcode : Opcode) (ps : List Bytes) (a rest : Bytes) (p : Packet)
    → ◌≡◌ {A = Result (Bytes × Packet)}
        (ok (a, record { opcode = opcode; parameters = ps }))
        (ok (rest, p))
    → ps ≡ p.parameters
pure-parameters opcode ps a rest p h = ground arith

pure-opcode :
    (opcode : Opcode) (ps : List Bytes) (a rest : Bytes) (p : Packet)
    → ◌≡◌ {A = Result (Bytes × Packet)}
        (ok (a, record { opcode = opcode; parameters = ps }))
        (ok (rest, p))
    → p.opcode ≡ opcode
pure-opcode opcode ps a rest p h = ground arith

pub opcode_value-lt : (opcode : Opcode) → opcode_value opcode < 65536
opcode_value-lt opcode = ground arith

module _ ⦃lib : RawData⦄ where
  open lib use {
    int_bytes, get_int, get_string, set_int_lem, get_int-int_bytes, get_int_sound, get_string_lem,
    length-int_bytes,
  }

  append_parameters_lem :
      (ps : List Bytes) (raw : Bytes) → append_parameters ps raw ≡ raw ++ concat_map terminated ps
  append_parameters_lem [] raw = sym (append-nil raw)
  append_parameters_lem (p ∷ ps) raw =
      append_parameters_lem ps (raw ++ p ++ string_terminator ∷ [])
      ∙ rw (append_assoc raw p (string_terminator ∷ []))
          (append_assoc raw (terminated p) (concat_map terminated ps))

  -- A packet on the wire.
  abbrev pub packet_bytes : Packet → Bytes
  packet_bytes p = int_bytes 2 (opcode_value p.opcode) ++ concat_map terminated p.parameters

  pub encode-packet_bytes : (p : Packet) → encode p ≡ packet_bytes p ++ packet_terminator ∷ []
  unfolding encode
  encode-packet_bytes p =
      rw (set_int_lem 2 (opcode_value p.opcode) (0 ∷ 0 ∷ []) (omega arith))
        (rw (append_parameters_lem p.parameters, append-nil))

  pub all_text_lem : (text : Bytes) → all_text text ≡ ok ([], text)
  unfolding all_text
  all_text_lem text =
      rw (get_string_lem (length text) text (omega arith)) (
        rw
          (drop-eq_nil (length text) text (omega arith), take_all (length text) text (omega arith)))

  -- A packet with a known opcode, at least one parameter and no NULL in a parameter is read back from
  -- its encoding.
  pub decode-encode_packet : (p : Packet) → IsPacket p → decode (encode p) ≡ ok p
  unfolding decode
  decode-encode_packet p h =
      let text : Bytes = concat_map terminated p.parameters in
      let long : ltb 2 (length (packet_bytes p ++ packet_terminator ∷ [])) ≡ true = ground (
        arith,
        length-append (packet_bytes p) (packet_terminator ∷ []),
        length-append (int_bytes 2 (opcode_value p.opcode)) text,
        length-int_bytes 2 (opcode_value p.opcode),
      ) in
      let some_parameter : ltb 0 (length p.parameters) ≡ true = ground (arith, h.some_parameter) in
      rw (encode-packet_bytes p, long, ends_with-append (packet_bytes p) packet_terminator)
        (rw (drop_back-append (packet_bytes p) packet_terminator) (
          rw (get_int-int_bytes 2 (opcode_value p.opcode) text (opcode_value-lt p.opcode)) (
            rw (checked-known p.opcode h.known) (
              rw (all_text_lem text) (
                rw (scan-concat_map p.parameters (length text) [] h.texts (omega arith))
                  (rw some_parameter))))))

  -- What follows the opcode.
  abbrev pub read_parameters : Opcode → Coder Packet
  read_parameters opcode = do
    text ← all_text
    parameters ← lift (scan (length text) text [])
    check (ltb 0 (length parameters)) invalid_find_packet
    pure (record { opcode = opcode; parameters = parameters })

  read_parameters_sound :
      (opcode : Opcode) (text rest : Bytes) (p : Packet)
      → read_parameters opcode text ≡ ok (rest, p)
      → (p.opcode ≡ opcode)
        × (text ≡ concat_map terminated p.parameters)
        × All IsText p.parameters
        × (0 < length p.parameters)
  read_parameters_sound opcode text rest p h =
      let (a, e, next) =
        >>=-eq-ok (lift (scan (length text) text [])) _ [] (rw (all_text_lem text) at h) in
      let (_, scanned) = lift-eq-ok (scan (length text) text []) [] e in
      let (some_parameter, last) =
        check->>-eq-ok (ltb 0 (length a.1)) invalid_find_packet _ a.0 next in
      let (qs, found, whole, clean) = scan_sound (length text) text [] a.1 (omega arith) scanned in
      let same : a.1 ≡ p.parameters = pure-parameters opcode a.1 a.0 rest p last in
      (
        pure-opcode opcode a.1 a.0 rest p last,
        rw (← same, found) whole,
        rw (← same, found) clean,
        rw (← same) (ground arith),
      )

  decode_front :
      (raw_packet rest : Bytes) (p : Packet)
      → ends_with packet_terminator raw_packet ≡ true
      → (do
        int_opcode ← get_int 2
        opcode ← lift (checked_opcode (known_opcode int_opcode))
        read_parameters opcode)
          (take (length raw_packet - 1) raw_packet)
        ≡ ok (rest, p)
      → IsPacket p × (encode p ≡ raw_packet)
  decode_front raw_packet rest p ends h =
      let front : Bytes = take (length raw_packet - 1) raw_packet in
      let ((text, value), got, e) = >>=-eq-ok (get_int 2) _ front h in
      let (bytes, _) = get_int_sound 2 value front text got in
      let ((text', opcode), lifted, e') =
        >>=-eq-ok (lift (checked_opcode (known_opcode value))) _ text e in
      let (same, checked) = lift-eq-ok (checked_opcode (known_opcode value)) text lifted in
      let (number, known) = checked_sound value opcode checked in
      let (op, whole, clean, some_parameter) = read_parameters_sound opcode text' rest p e' in
      (
        record { known = rw op known; some_parameter = some_parameter; texts = clean },
        encode-packet_bytes p
            ∙ ap (λ t. t ++ packet_terminator ∷ []) (cc (number, op, whole, same, bytes))
            ∙ sym (ends_with_sound raw_packet packet_terminator ends),
      )

  -- Whatever is decoded is a packet, and the raw data are exactly its encoding.
  pub encode-decode_packet :
      (raw_packet : Bytes) (p : Packet)
      → decode raw_packet ≡ ok p
      → IsPacket p × (encode p ≡ raw_packet)
  unfolding decode drop_back
  encode-decode_packet raw_packet p h =
      let (r, e) = value_of-eq-ok _ h in
      let (_, e1) = check->>-eq-ok (ltb 2 (length raw_packet)) invalid_find_packet _ raw_packet e in
      let (ends, e2) =
        check->>-eq-ok (ends_with packet_terminator raw_packet) invalid_find_packet _ raw_packet
          e1 in
      decode_front raw_packet r p ends e2
