-- ===== src/Status.antt =====
-- The status of an operation (lib/arinc_615a/information: Status, UploadStatus, UploadLoadStatus,
-- DownloadStatus, DownloadFileStatus). An `int16_t` is its bit pattern.
pub mod Entries
use arinc_615a_gui_tool_suit.Base.{
  Bool, same_text, if◌then◌else◌, ◌∷◌, ℕ, ◌+◌, ◌%◌, ◌^◌, ◌<◌, [], List, Bytes,
}
use arinc_615a_gui_tool_suit.Codes.{StatusCode, invalid}
use arinc_615a_gui_tool_suit.Codes.Conversions.{IsTransmitted}
use arinc_615a_gui_tool_suit.Files.Text.RoundTrip.{IsStored}

pub record Status : Type 0 where
  pub counter : ℕ
  pub exception_timer : ℕ
  pub estimated_time : ℕ
  pub code : StatusCode
  pub description : Bytes

-- `++counterV` on a `uint16_t`.
unfoldable pub increment_counter : Status → Status
increment_counter s = record s { counter = (s.counter + 1) % 2 ^ 16 }

-- A new code takes the old description away.
unfoldable pub set_code : StatusCode → Status → Status
set_code code s = record s { code = code; description = [] }

unfoldable pub set_status : StatusCode → Bytes → Status → Status
set_status code description s = record s { code = code; description = description }

pub record LoadStatus : Type 0 where
  pub header_filename : Bytes
  pub part_number : Bytes
  pub ratio : ℕ
  pub code : StatusCode
  pub description : Bytes

pub record UploadStatus : Type 0 where
  pub status : Status
  pub list_ratio : ℕ
  pub loads : List LoadStatus

pub record FileStatus : Type 0 where
  pub filename : Bytes
  pub code : StatusCode
  pub description : Bytes

pub record DownloadStatus : Type 0 where
  pub status : Status
  pub list_ratio : ℕ
  pub files : List FileStatus

-- A status that a status file can hold.
pub record IsStoredStatus (s : Status) : Type 0 where
  pub counter : s.counter < 65536
  pub exception_timer : s.exception_timer < 65536
  pub estimated_time : s.estimated_time < 65536
  pub code : IsTransmitted s.code
  pub description : IsStored s.description

module _ {E : Type 0} (key : E → Bytes) where
  -- The search for the first entry with a name, and its change, or the change of a new entry behind.
  pub update_entry : (Bytes → E) → Bytes → (E → E) → List E → List E
  update_entry new name change [] = change (new name) ∷ []
  update_entry new name change (entry ∷ entries) =
      let rest = update_entry new name change entries in
      if same_text (key entry) name then change entry ∷ entries else entry ∷ rest

-- `UploadLoadStatus( headerFilename, partNumber )`
abbrev pub new_load : Bytes → Bytes → LoadStatus
new_load header_filename part_number = record {
  header_filename = header_filename;
  part_number = part_number;
  ratio = 0;
  code = invalid;
  description = [];
}

-- `UploadLoadStatus::set`
abbrev pub set_load : ℕ → StatusCode → Bytes → LoadStatus → LoadStatus
set_load ratio code description load = record load {
  ratio = ratio;
  code = code;
  description = description;
}

-- `UploadStatus::load( headerFilename )`; the caller changes what it returns.
unfoldable pub load : Bytes → (LoadStatus → LoadStatus) → UploadStatus → UploadStatus
load header_filename change s = record s {
  loads =
      update_entry (λ l. l.header_filename) (λ name. new_load name []) header_filename change
        s.loads;
}

-- `DownloadFileStatus( filename )`
abbrev pub new_file : Bytes → FileStatus
new_file filename = record { filename = filename; code = invalid; description = [] }

-- `DownloadFileStatus::set`
abbrev pub set_file : StatusCode → Bytes → FileStatus → FileStatus
set_file code description file = record file { code = code; description = description }

-- `DownloadStatus::file( filename )`; the caller changes what it returns.
unfoldable pub file : Bytes → (FileStatus → FileStatus) → DownloadStatus → DownloadStatus
file filename change s = record s {
  files = update_entry (λ f. f.filename) new_file filename change s.files;
}
