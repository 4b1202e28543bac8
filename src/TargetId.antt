-- ===== src/TargetId.antt =====
-- Target identifiers (lib/arinc_615a/TargetId.cpp): the target hardware ID and the position,
-- separated by an underscore.
pub mod Text
use arinc_615a_gui_tool_suit.Base.{
  ℕ, suc, [], ◌∷◌, ◌++◌, Bytes, Bool, true, false, not, ◌&&◌, ◌||◌, Option, none, some, ltb, leb,
  ◌==◌, if◌then◌else◌, length, take, drop,
}
use arinc_615a_gui_tool_suit.Separator.{split_at}

pub record TargetId : Type 0 where
  pub thw_id : Bytes
  pub position : Bytes

-- `TargetId::splitTargetId`
abbrev pub split_target_id : Bytes → Bytes × Bytes
split_target_id target_id = split_at b'_' target_id

-- `std::isalnum` in the classic locale.
abbrev pub is_alnum : ℕ → Bool
is_alnum c =
    (leb b'0' c && leb c b'9') || ((leb b'A' c && leb c b'Z') || (leb b'a' c && leb c b'z'))

-- `std::ranges::all_of`
abbrev pub all_of : (ℕ → Bool) → Bytes → Bool
all_of test [] = true
all_of test (c ∷ text) = test c && all_of test text

-- `TargetId::isCompliant`
unfoldable pub is_compliant : Bytes → ℕ → ℕ → Bool
is_compliant string_to_check min_length max_length =
    if ltb (length string_to_check) min_length || ltb max_length (length string_to_check)
    then false
    else all_of is_alnum string_to_check

abbrev pub is_thw_id : Bytes → Bool
is_thw_id thw_id = is_compliant thw_id 4 15

abbrev pub is_position : Bytes → Bool
is_position position = is_compliant position 0 8

-- `TargetId::isTargetId`
pub is_target_id : Bytes → Bool
is_target_id target_id =
    let parts = split_target_id target_id in is_thw_id parts.0 && is_position parts.1

-- `TargetId::TargetId( targetId )` and `TargetId::operator=`
pub target_id_of : Bytes → TargetId
target_id_of text =
    let parts = split_target_id text in record { thw_id = parts.0; position = parts.1 }

-- `TargetId::toString`
abbrev pub to_string : TargetId → Bytes
to_string t = t.thw_id ++ b'_' ∷ t.position

-- `TargetId::operator bool`
abbrev pub is_valid : TargetId → Bool
is_valid t = is_compliant t.thw_id 4 15 && is_compliant t.position 0 8

-- `TargetId::thwId( thwId )`
abbrev pub set_thw_id : Bytes → TargetId → TargetId
set_thw_id thw_id t = record t { thw_id = thw_id }

-- `TargetId::position( position )`
abbrev pub set_position : Bytes → TargetId → TargetId
set_position position t = record t { position = position }
