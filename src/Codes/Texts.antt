-- ===== src/Codes/Texts.antt =====
-- The text for a status code (lib/arinc_615a/StatusCode.cpp, `status`).
use arinc_615a_gui_tool_suit.Base.{[], ◌++◌, Bytes, codes}
use arinc_615a_gui_tool_suit.Codes.{
  StatusCode, operation_accepted, operation_not_accepted, operation_not_supported,
  operation_in_progress, operation_completed, operation_in_progress_additional_info,
  operation_aborted_by_target_hw, operation_aborted_by_dlp, operation_aborted_by_operator,
  load_part_number_or_download_file_failed, operation_deferred, invalid,
}

-- `OperationClass`
pub data OperationClass : Type 0 where
  information upload download : OperationClass

abbrev pub class_text : OperationClass → Bytes
class_text information = codes "Information"
class_text upload = codes "Uploading"
class_text download = codes "Downloading"

-- `status( operationClass, code, description, loadPartNumberOrFilename )`
abbrev pub status_text : OperationClass → StatusCode → Bytes → Bytes → Bytes
status_text class operation_accepted description name = []
status_text class operation_not_accepted description name =
    class_text class ++ codes " Operation Denied. " ++ description
status_text class operation_not_supported description name =
    class_text class ++ codes " Operation not supported by the target. " ++ description
status_text class operation_in_progress description name = []
status_text class operation_completed description name =
    class_text class ++ codes " Operation Completed."
status_text class operation_in_progress_additional_info description name = description
status_text class operation_aborted_by_target_hw description name =
    class_text class ++ codes " Operation aborted by the Target Hardware. " ++ description
status_text class operation_aborted_by_dlp description name =
    class_text class ++ codes " Operation aborted by the Data Loader. " ++ description
status_text class operation_aborted_by_operator description name =
    class_text class ++ codes " Operation cancelled by the operator."
status_text class load_part_number_or_download_file_failed description name =
    name ++ codes " failed. " ++ description
status_text class operation_deferred description name =
    class_text class ++ codes " Operation deferred. " ++ description
status_text class invalid description name = codes "**INVALID**"
