-- ===== src/ErrorMessage.antt =====
-- The error messages of ARINC 615A in TFTP error packets (lib/arinc_615a/tftp/ErrorMessage.cpp).
pub mod RoundTrip
use arinc_615a_gui_tool_suit.Base.{
  ℕ, zero, suc, ◌+◌, ◌/◌, ◌%◌, ◌^◌, [], ◌∷◌, ◌++◌, Bytes, Bool, true, false, not, ◌&&◌, ◌||◌,
  Option, none, some, ltb, leb, ◌==◌, if◌then◌else◌, length, drop, Result, ok, err,
  arinc_615a_exception, decimal, from_chars, ℤ, pos, negsuc,
}
use arinc_615a_gui_tool_suit.Codes.{
  StatusCode, to_underlying, invalid, operation_accepted, operation_not_accepted,
  operation_not_supported, operation_in_progress, operation_completed,
  operation_aborted_by_target_hw, operation_aborted_by_dlp, operation_aborted_by_operator,
  load_part_number_or_download_file_failed,
}

pub data MessageType : Type 0 where
  abort wait invalid_message : MessageType

-- `starts_with`
abbrev pub starts_with : Bytes → Bytes → Bool
starts_with text [] = true
starts_with [] (p ∷ prefix) = false
starts_with (c ∷ text) (p ∷ prefix) = (c == p) && starts_with text prefix

-- "WAIT:"
abbrev pub wait_error_string : Bytes
wait_error_string = b'W' ∷ b'A' ∷ b'I' ∷ b'T' ∷ b':' ∷ []

-- "ABORT:"
abbrev pub abort_error_string : Bytes
abort_error_string = b'A' ∷ b'B' ∷ b'O' ∷ b'R' ∷ b'T' ∷ b':' ∷ []

-- The type that a text has.
abbrev pub type_of_text : Bytes → MessageType
type_of_text error_message =
    if starts_with error_message wait_error_string
    then (if leb (length error_message) (length wait_error_string) then invalid_message else wait)
    else if starts_with error_message abort_error_string
    then (if leb (length error_message) (length abort_error_string) then invalid_message else abort)
    else invalid_message

-- `ErrorMessage_type`; the error codes of TFTP are `E`, and the test is that for `NotDefined`.
pub message_type : {E : Type 0} → (E → Bool) → Option (E × Bytes) → MessageType
message_type not_defined none = invalid_message
message_type not_defined (some information) =
    if not (not_defined information.0) then invalid_message else type_of_text information.1

abbrev hex_digit : ℕ → ℕ
hex_digit d = if ltb d 10 then b'0' + d else 55 + d

-- `std::format( "{:04X}", n )` for `n` of 16 bits.
abbrev hex_digits : ℕ → Bytes
hex_digits n =
    hex_digit (n / 4096 % 16)
    ∷ hex_digit (n / 256 % 16)
    ∷ hex_digit (n / 16 % 16)
    ∷ hex_digit (n % 16)
    ∷ []

-- `ErrorMessage_abort( StatusCode )`
unfoldable pub abort_message : StatusCode → Bytes
abort_message code = abort_error_string ++ hex_digits (to_underlying code)

-- The check of the decoded value.
abbrev pub abort_code : ℕ → StatusCode
abort_code code =
    if code == 0x0001
    then operation_accepted
    else if code == 0x1000
    then operation_not_accepted
    else if code == 0x1002
    then operation_not_supported
    else if code == 0x0002
    then operation_in_progress
    else if code == 0x0003
    then operation_completed
    else if code == 0x1003
    then operation_aborted_by_target_hw
    else if code == 0x1004
    then operation_aborted_by_dlp
    else if code == 0x1005
    then operation_aborted_by_operator
    else if code == 0x1007
    then load_part_number_or_download_file_failed
    else invalid

abbrev pub checked_code : Option ℕ → StatusCode
checked_code none = invalid
checked_code (some code) = abort_code code

-- `ErrorMessage_abort( std::string_view )`
pub abort_status : Bytes → StatusCode
abort_status error_message =
    if not (starts_with error_message abort_error_string)
    then invalid
    else checked_code (from_chars 16 (2 ^ 16) (drop 6 error_message))

-- `ErrorMessage_wait( std::chrono::seconds )`
unfoldable pub wait_message : ℤ → Result Bytes
wait_message (negsuc n) = err arinc_615a_exception
wait_message (pos n) =
    if not (ltb n (2 ^ 16)) then err arinc_615a_exception else ok (wait_error_string ++ decimal 4 n)

-- `ErrorMessage_wait( std::string_view )`
pub wait_time : Bytes → Option ℕ
wait_time error_message =
    if not (starts_with error_message wait_error_string)
    then none
    else from_chars 10 (2 ^ 16) (drop 5 error_message)
