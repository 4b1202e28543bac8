-- ===== src/Host/Download.antt =====
-- The download operations of a data loader: what the two classes inherit
-- (lib/arinc_615a/host/implementation/DownloadOperationImpl.cpp).
pub mod Media
pub mod Operator
use arinc_615a_gui_tool_suit.Base.{ℕ, Bool, List, Bytes, continue, Result, ok}
use arinc_615a_gui_tool_suit.RawData.{RawData}
use arinc_615a_gui_tool_suit.Status.{DownloadStatus}
use arinc_615a_gui_tool_suit.Files.Download.StatusFile
use arinc_615a_gui_tool_suit.Host.Operation.{Operation, Action}
use arinc_615a_gui_tool_suit.Host.Status.{StatusSource, status_file_request, status_file_completed}

module _ ⦃lib : RawData⦄ where
  abbrev pub download_source : StatusSource DownloadStatus
  download_source = record {
    decode_status = λ raw_file. continue (StatusFile.decode raw_file) (λ file. ok file.status);
    overall = λ s. s.status;
    mark = λ op. op;
  }

module _ {H : Type 0} where
  -- `statusFileRequest`
  abbrev pub download_status_request : H → Operation → Operation × List (Action H DownloadStatus)
  download_status_request = status_file_request

  module _ ⦃lib : RawData⦄ where
    -- `statusFileCompleted`
    abbrev pub download_status_completed :
        ℕ → Bool → Bytes → Operation → Operation × Result (List (Action H DownloadStatus))
    download_status_completed = status_file_completed download_source
