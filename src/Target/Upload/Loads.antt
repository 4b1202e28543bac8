-- ===== src/Target/Upload/Loads.antt =====
-- The end of all loads at once.
use arinc_615a_gui_tool_suit.Base.{
  ◌≡◌, refl, ap, true, inl, inr, Bool-cases, List, [], ◌∷◌, Bytes, map, All, if◌then◌else◌,
}
use arinc_615a_gui_tool_suit.Codes.{
  FinalStatus, completed, aborted_by_dlp, aborted_by_operator, aborted_by_target_hardware,
  status_code_of_final,
}
use arinc_615a_gui_tool_suit.Status.{LoadStatus, UploadStatus, set_load}
use arinc_615a_gui_tool_suit.Target.Transmission.{is_finished}
use arinc_615a_gui_tool_suit.Target.Upload.{loads_finished}

abbrev IsFinished : LoadStatus → Type 0
IsFinished l = is_finished l.code ≡ true

abbrev finish : FinalStatus → Bytes → LoadStatus → LoadStatus
finish final description l =
    if is_finished l.code then l else set_load l.ratio (status_code_of_final final) description l

final-IsFinished : (final : FinalStatus) → is_finished (status_code_of_final final) ≡ true
unfolding is_finished status_code_of_final
final-IsFinished completed = refl
final-IsFinished aborted_by_dlp = refl
final-IsFinished aborted_by_operator = refl
final-IsFinished aborted_by_target_hardware = refl
final-IsFinished FinalStatus.load_part_number_or_download_file_failed = refl

finish-IsFinished :
    (final : FinalStatus) (description : Bytes) (l : LoadStatus)
    → IsFinished (finish final description l)
finish-IsFinished final description l = elim (Bool-cases (is_finished l.code)) [
  | inl e ↦ simp e
  | inr e ↦ simp e (final-IsFinished final)
]

map-finish-All :
    (final : FinalStatus) (description : Bytes) (ls : List LoadStatus)
    → All IsFinished (map (finish final description) ls)
map-finish-All final description [] = tt
map-finish-All final description (l ∷ ls) =
    (finish-IsFinished final description l, map-finish-All final description ls)

map-finish_same :
    (final : FinalStatus) (description : Bytes) (ls : List LoadStatus)
    → All IsFinished ls
    → map (finish final description) ls ≡ ls
map-finish_same final description [] h = refl
map-finish_same final description (l ∷ ls) h = simp (h.0, map-finish_same final description ls h.1)

-- When all loads are finished at once, each of them has the code of an end afterwards; and a second
-- call, with whatever status and description, changes nothing.
pub loads_finished_once :
    (final : FinalStatus) (description : Bytes) (s : UploadStatus)
    → All IsFinished (loads_finished final description s).loads
      × ((again : FinalStatus) (other : Bytes)
          → loads_finished again other (loads_finished final description s)
            ≡ loads_finished final description s)
unfolding loads_finished
loads_finished_once final description s = (
  map-finish-All final description s.loads,
  λ again other.
      ap (λ ls. record s { loads = ls })
        (map-finish_same again other _ (map-finish-All final description s.loads)),
)
