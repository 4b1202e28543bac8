-- ===== src/Target/Download.antt =====
-- The operations of a target for downloads: what the two classes have in common
-- (lib/arinc_615a/target/implementation/MediaDefinedDownloadOperationImpl.cpp and
-- OperatorDefinedDownloadOperationImpl.cpp).
pub mod Entries
pub mod Media
pub mod Operator
use arinc_615a_gui_tool_suit.Base.{refl, ℕ, Bool, List, [], ◌∷◌, ◌++◌, Bytes, map, if◌then◌else◌}
use arinc_615a_gui_tool_suit.RawData.{RawData}
use arinc_615a_gui_tool_suit.Codes.{FinalStatus, status_code_of_final, operation_accepted}
use arinc_615a_gui_tool_suit.Status.{
  set_status, FileStatus, DownloadStatus, new_file, set_file, file,
}
use arinc_615a_gui_tool_suit.Files.ProtocolFilename.{download_status}
use arinc_615a_gui_tool_suit.Files.Download.StatusFile
use arinc_615a_gui_tool_suit.Target.Operation.{Operation, Action, StatusFormat, trigger}
use arinc_615a_gui_tool_suit.Target.Transmission.{progress_code, is_finished}

module _ ⦃lib : RawData⦄ where
  -- `DownloadStatus`, which derives from `Status`, and its file.
  abbrev pub download_format : StatusFormat DownloadStatus
  download_format = record {
    overall = λ s. s.status;
    with_overall = λ status s. record s { status = status };
    status_type = download_status;
    encode_status =
        λ version s. StatusFile.encode (record { protocol_version = version; status = s });
    overall-with_overall = λ status s. refl;
  }

-- `fileAccepted`: the entry is new even where there is one with the name.
unfoldable pub file_accepted : Bytes → DownloadStatus → DownloadStatus
file_accepted filename s = record s {
  files = s.files ++ set_file operation_accepted [] (new_file filename) ∷ [];
}

-- `fileInProgress`
unfoldable pub file_in_progress : Bytes → Bytes → DownloadStatus → DownloadStatus
file_in_progress filename description s =
    file filename (set_file (progress_code description) description) s

-- `fileFinished`
unfoldable pub file_finished : Bytes → FinalStatus → Bytes → DownloadStatus → DownloadStatus
file_finished filename final description s =
    file filename (set_file (status_code_of_final final) description) s

-- `filesFinished`
unfoldable pub files_finished : FinalStatus → Bytes → DownloadStatus → DownloadStatus
files_finished final description s = record s {
  files =
      map
        (λ (f : FileStatus).
          if is_finished f.code then f else set_file (status_code_of_final final) description f)
        s.files;
}

module _ {H : Type 0} where
  -- `inProgress` with a ratio.
  unfoldable pub in_progress_ratio :
      Bool
      → ℕ
      → Bytes
      → ℕ
      → Operation H DownloadStatus
      → Operation H DownloadStatus × List (Action H DownloadStatus)
  in_progress_ratio immediate estimated_time description list_ratio op = (
    record op {
      status = record op.status {
        status = record (set_status (progress_code description) description op.status.status) {
          estimated_time = estimated_time;
        };
        list_ratio = list_ratio;
      };
    },
    if immediate then trigger ∷ [] else [],
  )

  -- A change of the status of a file.
  unfoldable pub change_status :
      (DownloadStatus → DownloadStatus) → Operation H DownloadStatus → Operation H DownloadStatus
  change_status change op = record op { status = change op.status }
