-- ===== src/Status/Entries.antt =====
-- The status of a load or of a file is found by its name, or added.
use arinc_615a_gui_tool_suit.Base.{
  ℕ, ◌≡◌, ◌≢◌, refl, sym, inl, inr, List, [], ◌∷◌, Bytes, false, Bool-cases, if◌then◌else◌,
  same_text, same_text_sound, same_text_refl, Option, none, some,
}
use arinc_615a_gui_tool_suit.Codes.{StatusCode}
use arinc_615a_gui_tool_suit.Status.{
  LoadStatus, UploadStatus, FileStatus, DownloadStatus, update_entry, load, set_load, new_load,
  file, set_file, new_file,
}

same_text_other : (name other : Bytes) → other ≢ name → same_text name other ≡ false
same_text_other name other h = elim (Bool-cases (same_text name other)) [
  | inl e ↦ absurd (h (sym (same_text_sound name other e)))
  | inr e ↦ e
]

-- What an entry was, or a new one.
abbrev pub entry_or : {E : Type 0} → E → Option E → E
entry_or new none = new
entry_or new (some entry) = entry

module _ {E : Type 0} (key : E → Bytes) where
  -- The first entry with a name.
  abbrev pub find_entry : Bytes → List E → Option E
  find_entry name [] = none
  find_entry name (entry ∷ entries) =
      let rest = find_entry name entries in if same_text (key entry) name then some entry else rest

  module _ (new : Bytes → E) (change : E → E) (name : Bytes)
      (keeps : (e : E) → key (change e) ≡ key e) (named : key (new name) ≡ name) where
    -- The entry with the name is the changed one.
    pub find_entry-update_entry :
        (entries : List E)
        → find_entry name (update_entry key new name change entries)
          ≡ some (change (entry_or (new name) (find_entry name entries)))
    unfolding update_entry
    find_entry-update_entry [] = rw (keeps (new name), named, same_text_refl name)
    find_entry-update_entry (entry ∷ entries) = elim (Bool-cases (same_text (key entry) name)) [
      | inl e ↦ rw e (rw (keeps entry, e))
      | inr e ↦ rw e (rw e (find_entry-update_entry entries))
    ]

    -- The other entries stay.
    pub find_entry_other :
        (other : Bytes) (entries : List E)
        → other ≢ name
        → find_entry other (update_entry key new name change entries) ≡ find_entry other entries
    unfolding update_entry
    find_entry_other other [] h = rw (keeps (new name), named, same_text_other name other h)
    find_entry_other other (entry ∷ entries) h = elim (Bool-cases (same_text (key entry) name)) [
      | inl e ↦
          let differs : same_text (key entry) other ≡ false =
            rw (same_text_sound (key entry) name e) (same_text_other name other h) in
          rw e (rw (keeps entry, differs))
      | inr e ↦ elim (Bool-cases (same_text (key entry) other)) [
        | inl k ↦ rw e (rw k)
        | inr k ↦ rw e (rw k (find_entry_other other entries h))
      ]
    ]

-- The status of a load in a list, by its header file name.
abbrev pub find_load : Bytes → List LoadStatus → Option LoadStatus
find_load = find_entry (λ l. l.header_filename)

-- Setting the status of a load gives that load, which is new where there was none, its new ratio,
-- code and description, and the status that is found for
-- any other name stays the same.
load-set_load :
    (name other description : Bytes) (ratio : ℕ) (code : StatusCode) (s : UploadStatus)
    → other ≢ name
    → (find_load name (load name (set_load ratio code description) s).loads
        ≡ some (
            set_load ratio code description (entry_or (new_load name []) (find_load name s.loads))))
      × (find_load other (load name (set_load ratio code description) s).loads
          ≡ find_load other s.loads)
unfolding load
load-set_load name other description ratio code s h = (
  find_entry-update_entry (λ l. l.header_filename) (λ n. new_load n [])
      (set_load ratio code description) name (λ l. refl) refl s.loads,
  find_entry_other (λ l. l.header_filename) (λ n. new_load n []) (set_load ratio code description)
      name (λ l. refl) refl other s.loads h,
)

-- The status of a file in a list, by its name.
abbrev pub find_file : Bytes → List FileStatus → Option FileStatus
find_file = find_entry (λ f. f.filename)

-- Setting the status of a file gives that file, which is new where there was none, its new code and
-- description, and the status that is found for any other name stays the same.
file-set_file :
    (name other description : Bytes) (code : StatusCode) (s : DownloadStatus)
    → other ≢ name
    → (find_file name (file name (set_file code description) s).files
        ≡ some (set_file code description (entry_or (new_file name) (find_file name s.files))))
      × (find_file other (file name (set_file code description) s).files ≡ find_file other s.files)
unfolding file
file-set_file name other description code s h = (
  find_entry-update_entry (λ f. f.filename) new_file (set_file code description) name (λ f. refl)
      refl s.files,
  find_entry_other (λ f. f.filename) new_file (set_file code description) name (λ f. refl) refl
      other s.files h,
)
