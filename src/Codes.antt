-- ===== src/Codes.antt =====
-- The status codes and versions of the protocol (lib/arinc_615a/Arinc615a.hpp) and their
-- conversions (lib/arinc_615a/StatusCode.cpp).
pub mod Conversions
pub mod Texts
use arinc_615a_gui_tool_suit.Base.{ℕ, ◌==◌, if◌then◌else◌, Result, ok, err, arinc_615a_exception}

pub data Version : Type 0 where
  arinc_615a_1 arinc_615a_2 arinc_615a_34 : Version

abbrev pub version_code : Version → ℕ
version_code arinc_615a_1 = 0x4132
version_code arinc_615a_2 = 0x4133
version_code arinc_615a_34 = 0x4134

pub data StatusCode : Type 0 where
  operation_accepted operation_not_accepted operation_not_supported : StatusCode
  operation_in_progress operation_completed operation_in_progress_additional_info : StatusCode
  operation_aborted_by_target_hw operation_aborted_by_dlp operation_aborted_by_operator : StatusCode
  load_part_number_or_download_file_failed operation_deferred invalid : StatusCode

-- `std::to_underlying`
abbrev pub to_underlying : StatusCode → ℕ
to_underlying operation_accepted = 0x0001
to_underlying operation_not_accepted = 0x1000
to_underlying operation_not_supported = 0x1002
to_underlying operation_in_progress = 0x0002
to_underlying operation_completed = 0x0003
to_underlying operation_in_progress_additional_info = 0x0004
to_underlying operation_aborted_by_target_hw = 0x1003
to_underlying operation_aborted_by_dlp = 0x1004
to_underlying operation_aborted_by_operator = 0x1005
to_underlying load_part_number_or_download_file_failed = 0x1007
to_underlying operation_deferred = 0xFFFE
to_underlying invalid = 0xFFFF

-- `statusCode( uint16_t )`: the enumerators that a file may hold.
pub status_code : ℕ → Result StatusCode
status_code code =
    if code == 0x0001
    then ok operation_accepted
    else if code == 0x1000
    then ok operation_not_accepted
    else if code == 0x1002
    then ok operation_not_supported
    else if code == 0x0002
    then ok operation_in_progress
    else if code == 0x0003
    then ok operation_completed
    else if code == 0x0004
    then ok operation_in_progress_additional_info
    else if code == 0x1003
    then ok operation_aborted_by_target_hw
    else if code == 0x1004
    then ok operation_aborted_by_dlp
    else if code == 0x1005
    then ok operation_aborted_by_operator
    else if code == 0x1007
    then ok load_part_number_or_download_file_failed
    else err arinc_615a_exception

pub data AcceptanceCode : Type 0 where
  accepted denied not_supported deferred : AcceptanceCode

-- `static_cast< StatusCode >( code )`
abbrev pub as_status_code : AcceptanceCode → StatusCode
as_status_code accepted = operation_accepted
as_status_code denied = operation_not_accepted
as_status_code not_supported = operation_not_supported
as_status_code deferred = operation_deferred

abbrev pub acceptance_underlying : AcceptanceCode → ℕ
acceptance_underlying code = to_underlying (as_status_code code)

-- `operationAcceptanceStatusCode( uint16_t )`
pub acceptance_code : ℕ → Result AcceptanceCode
acceptance_code code =
    if code == 0x0001
    then ok accepted
    else if code == 0x1000
    then ok denied
    else if code == 0x1002
    then ok not_supported
    else err arinc_615a_exception

pub data FinalStatus : Type 0 where
  completed aborted_by_dlp aborted_by_operator aborted_by_target_hardware : FinalStatus
  load_part_number_or_download_file_failed : FinalStatus

-- `statusCode( FinalStatus )`: the failure of a single load or file has no case of its own.
unfoldable pub status_code_of_final : FinalStatus → StatusCode
status_code_of_final completed = operation_completed
status_code_of_final aborted_by_dlp = operation_aborted_by_dlp
status_code_of_final aborted_by_operator = operation_aborted_by_operator
status_code_of_final aborted_by_target_hardware = operation_aborted_by_target_hw
status_code_of_final _ = operation_aborted_by_target_hw

-- `finalStatus( StatusCode )`
unfoldable pub final_status : StatusCode → FinalStatus
final_status operation_completed = completed
final_status operation_aborted_by_dlp = aborted_by_dlp
final_status operation_aborted_by_operator = aborted_by_operator
final_status operation_aborted_by_target_hw = aborted_by_target_hardware
final_status load_part_number_or_download_file_failed =
    FinalStatus.load_part_number_or_download_file_failed
final_status _ = aborted_by_target_hardware

pub data AbortRequest : Type 0 where
  abort_by_dlp abort_by_operator : AbortRequest

-- `finalStatus( AbortRequest )`
abbrev pub final_status_of_abort : AbortRequest → FinalStatus
final_status_of_abort abort_by_dlp = aborted_by_dlp
final_status_of_abort abort_by_operator = aborted_by_operator
