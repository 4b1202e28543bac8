-- ===== src/ErrorMessage/RoundTrip.antt =====
-- What is read from the messages that are written.
use arinc_615a_gui_tool_suit.Base.{
  ℕ, zero, suc, ◌+◌, ◌≤◌, ◌<◌, ◌≡◌, ◌≢◌, refl, sym, ◌∙◌, ◌^◌, inl, inr, [], ◌∷◌, ◌++◌, arith, Bytes,
  Bool, true, false, some, ltb, length, drop, Result, ok, err, arinc_615a_exception, Bool-cases,
  Option-cases, ◌/◌, ◌%◌, decimal, from_chars, from_chars-decimal, ℤ, pos, negsuc, length-append,
}
use arinc_615a_gui_tool_suit.Codes.{
  StatusCode, invalid, operation_deferred, operation_in_progress_additional_info,
}
use arinc_615a_gui_tool_suit.ErrorMessage.{
  abort, wait, starts_with, wait_error_string, abort_error_string, message_type, abort_message,
  abort_status, wait_message, wait_time, checked_code, abort_code,
}

-- The codes that an abort message may carry.
abbrev pub IsAborted : StatusCode → Type 0
IsAborted code =
    (code ≢ operation_in_progress_additional_info) × (code ≢ operation_deferred) × (code ≢ invalid)

decimal-nonempty : (fuel n : ℕ) → 1 ≤ length (decimal fuel n)
decimal-nonempty zero n = omega arith
decimal-nonempty (suc fuel) n = elim (Bool-cases (ltb n 10)) [
  | inl e ↦ rw e (omega arith)
  | inr e ↦ rw e (omega (arith, length-append (decimal fuel (n / 10)) ((b'0' + n % 10) ∷ [])))
]

-- What a wait message says beyond its prefix.
wait_time_lem :
    (digits : Bytes) → wait_time (wait_error_string ++ digits) ≡ from_chars 10 (2 ^ 16) digits
unfolding wait_time
wait_time_lem digits = refl

message_type_wait :
    {E : Type 0} (not_defined : E → Bool) (e : E) (digits : Bytes)
    → not_defined e ≡ true
    → 1 ≤ length digits
    → message_type not_defined (some (e, wait_error_string ++ digits)) ≡ wait
unfolding message_type
message_type_wait not_defined e digits h some_digit = ground (arith, h, some_digit)

wait_message_lem :
    (n : ℕ) → n < 65536 → wait_message (pos n) ≡ ok (wait_error_string ++ decimal 4 n)
unfolding wait_message
wait_message_lem n h = let fits : ltb n (2 ^ 16) ≡ true = ground (arith, h) in rw fits

wait_message_refused :
    (n : ℕ) → ltb n (2 ^ 16) ≡ false → wait_message (pos n) ≡ err arinc_615a_exception
unfolding wait_message
wait_message_refused n e = rw e

ok_injective : (a b : Bytes) → ◌≡◌ {A = Result Bytes} (ok a) (ok b) → a ≡ b
ok_injective a b h = ground arith

abort_code-IsAborted :
    (value : ℕ) (code : StatusCode) → abort_code value ≡ code → code ≢ invalid → IsAborted code
abort_code-IsAborted value code h k = (λ e. ground arith, λ e. ground arith, k)

-- The code of an abort message is read back, unless it is the additional information, the deferral or
-- the invalid code; in a TFTP error whose code is not defined, the message has the type of an abort
-- message.
pub abort_status-abort_message :
    {E : Type 0} (not_defined : E → Bool) (e : E) (code : StatusCode)
    → not_defined e ≡ true
    → IsAborted code
    → (abort_status (abort_message code) ≡ code)
      × (message_type not_defined (some (e, abort_message code)) ≡ abort)
unfolding abort_status abort_message message_type from_chars
abort_status-abort_message not_defined e operation_in_progress_additional_info h k =
    absurd (k.0 refl)
abort_status-abort_message not_defined e operation_deferred h k = absurd (k.1 refl)
abort_status-abort_message not_defined e invalid h k = absurd (k.2 refl)
abort_status-abort_message not_defined e _ h k = (refl, rw h)

-- A text that is read as an abort code other than the invalid one begins with "ABORT:", and its code
-- is one that an abort message may carry.
abort_status_sound :
    (text : Bytes) (code : StatusCode)
    → abort_status text ≡ code
    → code ≢ invalid
    → (starts_with text abort_error_string ≡ true) × IsAborted code
unfolding abort_status
abort_status_sound text code h k = elim (Bool-cases (starts_with text abort_error_string)) [
  | inr e ↦ absurd (k (sym h ∙ rw e))
  | inl e ↦
      let read : checked_code (from_chars 16 (2 ^ 16) (drop 6 text)) ≡ code = rw e at h in
      elim (Option-cases (from_chars 16 (2 ^ 16) (drop 6 text))) [
        | inl none_read ↦ absurd (k (sym read ∙ rw none_read))
        | inr (value, some_read) ↦ (e, abort_code-IsAborted value code (rw some_read at read) k)
      ]
]

-- A waiting time of at most 65535 seconds is written and is read back from the message; in a TFTP
-- error whose code is not defined, the message has the type of a wait message.
pub wait_time-wait_message :
    {E : Type 0} (not_defined : E → Bool) (e : E) (n : ℕ)
    → not_defined e ≡ true
    → n < 65536
    → (message : Bytes) × (wait_message (pos n) ≡ ok message)
      × (wait_time message ≡ some n)
      × (message_type not_defined (some (e, message)) ≡ wait)
wait_time-wait_message not_defined e n h bound = (
  wait_error_string ++ decimal 4 n,
  wait_message_lem n bound,
  wait_time_lem (decimal 4 n) ∙ from_chars-decimal 4 n (2 ^ 16) (omega arith) bound,
  message_type_wait not_defined e (decimal 4 n) h (decimal-nonempty 4 n),
)

-- A waiting time that is written is one of 0 to 65535 seconds, and it is what is read back.
wait_message_sound :
    (seconds : ℤ) (message : Bytes)
    → wait_message seconds ≡ ok message
    → (n : ℕ) × (seconds ≡ pos n) × (n < 65536) × (wait_time message ≡ some n)
wait_message_sound (negsuc n) message h = unfold wait_message in cc
wait_message_sound (pos n) message h = elim (Bool-cases (ltb n (2 ^ 16))) [
  | inr e ↦ cc (wait_message_refused n e)
  | inl e ↦
      let bound : n < 65536 = ground (arith, e) in
      let same : wait_error_string ++ decimal 4 n ≡ message =
        ok_injective _ _ (sym (wait_message_lem n bound) ∙ h) in
      (
        n,
        refl,
        bound,
        rw same at
            (wait_time_lem (decimal 4 n) ∙ from_chars-decimal 4 n (2 ^ 16) (omega arith) bound),
      )
]
