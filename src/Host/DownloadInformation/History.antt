-- ===== src/Host/DownloadInformation/History.antt =====
-- The kept information is that of the history of the transfers.
use arinc_615a_gui_tool_suit.Base.{
  ℕ, ◌+◌, ◌%◌, ◌^◌, ◌<◌, ◌≡◌, refl, ◌∙◌, ap, true, false, inl, inr, Bool-cases, Option, none, some,
  List, [], ◌∷◌, Bytes, same_text, same_text_sound, same_text_refl, if◌then◌else◌, arith,
}
use arinc_615a_gui_tool_suit.Host.DownloadInformation.{
  FileTransferInformation, DownloadInformation, find_file, insert_or_assign, sum_sizes,
  file_finished, file_start, finished, Files,
}

same_text-eq : (key a b : Bytes) → same_text key a ≡ true → same_text key b ≡ same_text a b
same_text-eq key a b e = ap (λ t. same_text t b) (same_text_sound key a e)

-- The reports of transfers, the latest first.
pub data Event (C : Type 0) : Type 0 where
  started : ℕ → Bytes → Bytes → Bytes → C → Event C
  ended : ℕ → Bytes → Bytes → ℕ → Event C

same_text_sym : (a b : Bytes) → same_text a b ≡ true → same_text b a ≡ true
same_text_sym a b e = rw (same_text_sound a b e) (same_text_refl b)

module _ {C : Type 0} where
  find_file-insert_or_assign :
      (a b : Bytes) (information : FileTransferInformation C) (files : Files C)
      → find_file b (insert_or_assign a information files)
        ≡ (if same_text a b then some information else find_file b files)
  find_file-insert_or_assign a b information [] = refl
  find_file-insert_or_assign a b information ((key, old) ∷ files) =
      elim (Bool-cases (same_text key a)) [
        | inl e ↦ rw (e, same_text-eq key a b e) (ground arith)
        | inr e ↦ rw (e, find_file-insert_or_assign a b information files) (kept_key key a b old e)
      ]
    where
      -- A key that is not the one that is assigned stays in front.
      kept_key :
          (key a b : Bytes) (old : FileTransferInformation C)
          → same_text key a ≡ false
          → (if same_text key b
              then some old
              else (if same_text a b then some information else find_file b files))
            ≡ (if same_text a b
                then some information
                else (if same_text key b then some old else find_file b files))
      kept_key key a b old e = elim (Bool-cases (same_text key b)) [
        | inl f ↦ elim (Bool-cases (same_text a b)) [
          | inl g ↦ cc (e, same_text-eq key b a f, same_text_sym a b g)
          | inr g ↦ rw (f, g)
        ]
        | inr f ↦ rw f
      ]

  -- The status and the size of the last report about a file: a start sets them back.
  unfoldable pub last_report : Bytes → List (Event C) → Option (Bytes × ℕ)
  last_report filename [] = none
  last_report filename (started now other file_path part_number check_value ∷ events) =
      let before = last_report filename events in
      if same_text other filename then some ([], 0) else before
  last_report filename (ended now other status file_size ∷ events) =
      let before = last_report filename events in
      if same_text other filename then some (status, file_size) else before

  abbrev pub status_and_size : Option (FileTransferInformation C) → Option (Bytes × ℕ)
  status_and_size none = none
  status_and_size (some information) = some (information.file_status, information.file_size)

  -- The bytes of all files.
  abbrev pub total_size : Files C → ℕ
  total_size [] = 0
  total_size (file ∷ files) = file.1.file_size + total_size files

  sum_sizes_lem :
      (overall_size : ℕ) (files : Files C)
      → overall_size < 2 ^ 64
      → sum_sizes overall_size files ≡ (overall_size + total_size files) % 2 ^ 64
  sum_sizes_lem n [] h = omega arith
  sum_sizes_lem n (file ∷ files) h =
      omega (arith, sum_sizes_lem ((n + file.1.file_size) % 2 ^ 64) files (omega arith))

  module _ {A : Type 0} (no_check_value : C) where
    pub report : Event C → DownloadInformation A C → DownloadInformation A C
    report (started now filename file_path part_number check_value) d =
        file_start now filename file_path part_number check_value d
    report (ended now filename status file_size) d =
        file_finished no_check_value now filename status file_size d

    unfoldable pub after : List (Event C) → DownloadInformation A C → DownloadInformation A C
    unfolding report
    after [] d = d
    after (event ∷ events) d = report event (after events d)

    -- Whatever is reported about transfers, in whatever order and however often for the same file: the
    -- entry of a file has the status and the size of the last report about it, and there is none
    -- for a file without a report. No file is known in the beginning.
    pub find_file-after :
        (filename : Bytes) (events : List (Event C)) (d : DownloadInformation A C)
        → d.files_information ≡ []
        → status_and_size (find_file filename (after events d).files_information)
          ≡ last_report filename events
    unfolding after file_start file_finished last_report
    find_file-after filename [] d e = rw e
    find_file-after filename (started now other path part check_value ∷ events) d e =
        elim (Bool-cases (same_text other filename)) [
          | inl same ↦ rw (find_file-insert_or_assign other filename, same)
          | inr same ↦
              rw (find_file-insert_or_assign other filename, same)
                (find_file-after filename events d e)
        ]
    find_file-after filename (ended now other status file_size ∷ events) d e =
        elim (Bool-cases (same_text other filename)) [
          | inl same ↦ rw (find_file-insert_or_assign other filename, same)
          | inr same ↦
              rw (find_file-insert_or_assign other filename, same)
                (find_file-after filename events d e)
        ]

  -- The overall size of a download that is finished is that of all known files together, in 64 bits,
  -- and their entries stay as they are.
  pub finished-overall_size :
      {A : Type 0} (now : ℕ) (status : Bytes) (d : DownloadInformation A C)
      → ((finished now status d).overall_size ≡ total_size d.files_information % 2 ^ 64)
        × ((finished now status d).files_information ≡ d.files_information)
  unfolding finished
  finished-overall_size now status d =
      (sum_sizes_lem 0 d.files_information (omega arith) ∙ omega arith, refl)
