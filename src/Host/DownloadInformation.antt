-- ===== src/Host/DownloadInformation.antt =====
-- What a data loader keeps about the files of a download
-- (lib/arinc_615a/host/DownloadInformation.cpp). The time of the system's clock, in seconds, is an
-- argument. The mutex, the names that contain the time, and `save`, which writes a text file, are left
-- out.
pub mod History
use arinc_615a_gui_tool_suit.Base.{
  ℕ, ◌+◌, ◌%◌, ◌^◌, Bool, true, false, Option, none, some, List, [], ◌∷◌, Bytes, codes, same_text,
  if◌then◌else◌,
}
use arinc_615a_gui_tool_suit.TargetId.{TargetId}

-- `FileTransferInformation`, with check values `C`.
pub record FileTransferInformation (C : Type 0) : Type 0 where
  pub start_time : ℕ
  pub end_time : ℕ
  pub file_path : Bytes
  pub file_status : Bytes
  pub file_size : ℕ
  pub part_number : Bytes
  pub check_value : C

-- `DownloadInformation`, with addresses `A`.
pub record DownloadInformation (A C : Type 0) : Type 0 where
  pub target_id : Option TargetId
  pub target_address : Option A
  pub start_time : ℕ
  pub end_time : ℕ
  pub files : List Bytes
  pub files_information : List (Bytes × FileTransferInformation C)
  pub overall_status : Bytes
  pub overall_size : ℕ

abbrev pub transfer_ok : Bytes
transfer_ok = codes "Transfer OK"

abbrev pub transfer_error : Bytes
transfer_error = codes "Transfer Error"

-- The map of the files.
abbrev pub Files : Type 0 → Type 0
Files C = List (Bytes × FileTransferInformation C)

module _ {C : Type 0} where
  abbrev pub find_file : Bytes → Files C → Option (FileTransferInformation C)
  find_file filename [] = none
  find_file filename ((key, information) ∷ files) =
      let rest = find_file filename files in
      if same_text key filename then some information else rest

  -- `insert_or_assign`
  abbrev pub insert_or_assign : Bytes → FileTransferInformation C → Files C → Files C
  insert_or_assign filename information [] = (filename, information) ∷ []
  insert_or_assign filename information ((key, old) ∷ files) =
      let rest = insert_or_assign filename information files in
      if same_text key filename then (key, information) ∷ files else (key, old) ∷ rest

  -- The sum of the sizes, a `size_t`.
  abbrev pub sum_sizes : ℕ → Files C → ℕ
  sum_sizes overall_size [] = overall_size
  sum_sizes overall_size (file ∷ files) =
      sum_sizes ((overall_size + file.1.file_size) % 2 ^ 64) files

  module _ (no_check_value : C) where
    abbrev pub new_file : FileTransferInformation C
    new_file = record {
      start_time = 0;
      end_time = 0;
      file_path = [];
      file_status = [];
      file_size = 0;
      part_number = [];
      check_value = no_check_value;
    }

    -- `filesInformationV[ filename ]`: an entry that is not there is made.
    abbrev pub file_or_new : Option (FileTransferInformation C) → FileTransferInformation C
    file_or_new none = new_file
    file_or_new (some information) = information

    module _ {A : Type 0} where
      -- `fileFinished`
      unfoldable pub file_finished :
          ℕ → Bytes → Bytes → ℕ → DownloadInformation A C → DownloadInformation A C
      file_finished now filename status file_size d = record d {
        files_information =
            insert_or_assign filename
              (record (file_or_new (find_file filename d.files_information)) {
                end_time = now;
                file_status = status;
                file_size = file_size;
              })
              d.files_information;
      }

  module _ {A : Type 0} where
    -- `start`
    unfoldable pub start : ℕ → TargetId → A → DownloadInformation A C → DownloadInformation A C
    start now target_id target_address d = record d {
      target_id = some target_id;
      target_address = some target_address;
      start_time = now;
    }

    -- `files`
    unfoldable pub set_files : List Bytes → DownloadInformation A C → DownloadInformation A C
    set_files files d = record d { files = files }

    -- `fileStart`
    unfoldable pub file_start :
        ℕ → Bytes → Bytes → Bytes → C → DownloadInformation A C → DownloadInformation A C
    file_start now filename file_path part_number check_value d = record d {
      files_information =
          insert_or_assign filename
            (record {
              start_time = now;
              end_time = 0;
              file_path = file_path;
              file_status = [];
              file_size = 0;
              part_number = part_number;
              check_value = check_value;
            })
            d.files_information;
    }

    -- `finished`
    unfoldable pub finished : ℕ → Bytes → DownloadInformation A C → DownloadInformation A C
    finished now status d = record d {
      end_time = now;
      overall_status = status;
      overall_size = sum_sizes 0 d.files_information;
    }
