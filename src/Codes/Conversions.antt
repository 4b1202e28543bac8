-- ===== src/Codes/Conversions.antt =====
-- Which numbers are status codes, and what the conversions keep.
use arinc_615a_gui_tool_suit.Base.{ℕ, ◌<◌, ◌≡◌, refl, ◌≢◌, arith, ok}
use arinc_615a_gui_tool_suit.Codes.{
  StatusCode, to_underlying, status_code, AcceptanceCode, acceptance_underlying, acceptance_code,
  FinalStatus, status_code_of_final, final_status, operation_deferred, invalid, deferred,
}
use mathlib.Core.Logic.{◌↔◌}

-- The codes that a status file may hold.
abbrev pub IsTransmitted : StatusCode → Type 0
IsTransmitted code = (code ≢ operation_deferred) × (code ≢ invalid)

status_code_sound : (n : ℕ) (code : StatusCode) → status_code n ≡ ok code → n ≡ to_underlying code
unfolding status_code
status_code_sound n code h = ground arith

status_code_known : (n : ℕ) (code : StatusCode) → status_code n ≡ ok code → IsTransmitted code
unfolding status_code
status_code_known n code h = (λ e. ground arith, λ e. ground arith)

pub status_code-to_underlying :
    (code : StatusCode) → IsTransmitted code → status_code (to_underlying code) ≡ ok code
unfolding status_code
status_code-to_underlying operation_deferred t = absurd (t.0 refl)
status_code-to_underlying invalid t = absurd (t.1 refl)
status_code-to_underlying _ t = refl

-- A number is taken for a code exactly if it is the code's own number, and the code is neither of
-- the two internal ones.
status_code_iff :
    (n : ℕ) (code : StatusCode)
    → (status_code n ≡ ok code) ↔ ((n ≡ to_underlying code) × IsTransmitted code)
status_code_iff n code = (
  λ h. (status_code_sound n code h, status_code_known n code h),
  λ h. rw h.0 (status_code-to_underlying code h.1),
)

-- A final status survives the way through the status code, unless it is the failure of a single
-- load or file.
final_status-status_code :
    (status : FinalStatus)
    → status ≢ FinalStatus.load_part_number_or_download_file_failed
    → final_status (status_code_of_final status) ≡ status
unfolding final_status status_code_of_final
final_status-status_code status h = ground arith

-- A number is taken for an acceptance code exactly if it is the code's own number, and the code is
-- not the deferral.
acceptance_code_iff :
    (n : ℕ) (code : AcceptanceCode)
    → (acceptance_code n ≡ ok code) ↔ ((n ≡ acceptance_underlying code) × (code ≢ deferred))
unfolding acceptance_code
acceptance_code_iff n code = (ground arith, ground arith)

pub to_underlying-lt : (code : StatusCode) → to_underlying code < 65536
to_underlying-lt code = ground arith

pub acceptance_underlying-lt : (code : AcceptanceCode) → acceptance_underlying code < 65536
acceptance_underlying-lt code = ground arith

pub acceptance_code-acceptance_underlying :
    (code : AcceptanceCode)
    → code ≢ deferred
    → acceptance_code (acceptance_underlying code) ≡ ok code
acceptance_code-acceptance_underlying code h = (acceptance_code_iff _ code).1 (refl, h)
