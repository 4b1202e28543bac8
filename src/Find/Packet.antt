-- ===== src/Find/Packet.antt =====
-- A FIND packet (lib/arinc_615a/find/packets/Packet.cpp): an opcode, NULL-terminated parameters, and
-- a terminator.
pub mod Scan
pub mod RoundTrip
pub mod Ordinary
use arinc_615a_gui_tool_suit.Base.{
  ℕ, zero, suc, ◌-◌, List, [], ◌∷◌, ◌++◌, Bytes, Bool, true, false, not, Option, none, some, ltb,
  leb, ◌==◌, if◌then◌else◌, Result, ok, err, invalid_find_packet, Coder, ◌>>=◌, ◌>>◌, pure, lift,
  check, continue, value_of, length, take, drop, replicate,
}
use arinc_615a_gui_tool_suit.RawData.{RawData}
use arinc_615a_gui_tool_suit.Files.Text.{find_null}

pub data Opcode : Type 0 where
  information_request information_answer invalid : Opcode

abbrev pub opcode_value : Opcode → ℕ
opcode_value information_request = 1
opcode_value information_answer = 2
opcode_value invalid = 0xFFFF

pub record Packet : Type 0 where
  pub opcode : Opcode
  pub parameters : List Bytes

abbrev pub packet_terminator : ℕ
packet_terminator = 0x10

abbrev pub string_terminator : ℕ
string_terminator = 0

-- The `switch` on an opcode.
abbrev pub known_opcode : ℕ → Opcode
known_opcode value =
    if value == 1 then information_request else if value == 2 then information_answer else invalid

-- `Packet( opcode, numberOfParameters )`: empty parameters.
abbrev pub empty_packet : Opcode → ℕ → Packet
empty_packet opcode number = record { opcode = opcode; parameters = replicate number [] }

-- `remainingData.back() == terminator`
abbrev pub ends_with : ℕ → Bytes → Bool
ends_with t [] = false
ends_with t (c ∷ []) = c == t
ends_with t (c ∷ d ∷ span) = ends_with t (d ∷ span)

-- `remainingData.first( remainingData.size() - 1U )`
unfoldable pub drop_back : Coder (Unit {0})
drop_back remaining = ok (take (length remaining - 1) remaining, tt)

-- The loop over the parameters. Each round takes a character at least, so as many rounds as there
-- are characters are enough.
unfoldable pub scan : ℕ → Bytes → List Bytes → Result (List Bytes)
scan zero text parameters = ok parameters
scan (suc fuel) [] parameters = ok parameters
scan (suc fuel) (c ∷ text) parameters = elim (find_null (c ∷ text)) [
  | none ↦ err invalid_find_packet
  | some end ↦ scan fuel (drop (suc end) (c ∷ text)) (parameters ++ (take end (c ∷ text) ∷ []))
]

-- The `switch` of the constructor.
abbrev pub checked_opcode : Opcode → Result Opcode
checked_opcode invalid = err invalid_find_packet
checked_opcode opcode = ok opcode

module _ ⦃lib : RawData⦄ where
  open lib use {get_int, get_string, set_int}

  -- `Packet::packetType`
  unfoldable pub packet_type : Bytes → Result Opcode
  packet_type raw_packet =
      if ltb (length raw_packet) 2
      then ok invalid
      else continue (get_int 2 raw_packet) (λ p. ok (known_opcode p.1))

  -- The rest of the packet as a string.
  unfoldable pub all_text : Coder Bytes
  all_text remaining = get_string (length remaining) remaining

  -- `Packet( rawPacket )`
  unfoldable pub decode : Bytes → Result Packet
  decode raw_packet = value_of (
      (do
        check (ltb 2 (length raw_packet)) invalid_find_packet
        check (ends_with packet_terminator raw_packet) invalid_find_packet
        drop_back
        int_opcode ← get_int 2
        opcode ← lift (checked_opcode (known_opcode int_opcode))
        text ← all_text
        parameters ← lift (scan (length text) text [])
        check (ltb 0 (length parameters)) invalid_find_packet
        pure (record { opcode = opcode; parameters = parameters }))
        raw_packet)

  abbrev pub append_parameters : List Bytes → Bytes → Bytes
  append_parameters [] raw_packet = raw_packet
  append_parameters (parameter ∷ parameters) raw_packet =
      append_parameters parameters (raw_packet ++ parameter ++ string_terminator ∷ [])

  unfoldable pub encode : Packet → Bytes
  encode packet =
      append_parameters packet.parameters (set_int 2 (opcode_value packet.opcode) (replicate 2 0))
      ++ packet_terminator ∷ []
