-- ===== src/Files/ProtocolFilename.antt =====
-- The names of protocol files (lib/arinc_615a/files/ProtocolFilename.cpp): a target identifier, a point
-- and an extension.
pub mod Text
use arinc_615a_gui_tool_suit.Base.{
  ℕ, List, [], ◌∷◌, ◌++◌, Bytes, Bool, true, false, not, ◌&&◌, ◌==◌, if◌then◌else◌, same_text,
}
use arinc_615a_gui_tool_suit.Separator.{split_at}
use arinc_615a_gui_tool_suit.TargetId.{
  TargetId, target_id_of, is_target_id, is_valid, to_string, set_thw_id, set_position,
}

-- `ProtocolFileType`
pub data FileType : Type 0 where
  load_configuration_initialization load_configuration_list : FileType
  load_configuration_status upload_initialization : FileType
  upload_request upload_status : FileType
  media_defined_download_initialization media_defined_download_request : FileType
  operator_defined_download_initialization operator_defined_download_list : FileType
  operator_defined_download_answer download_status : FileType
  invalid_type : FileType

-- The place of an enumerator.
abbrev pub type_number : FileType → ℕ
type_number load_configuration_initialization = 0
type_number load_configuration_list = 1
type_number load_configuration_status = 2
type_number upload_initialization = 3
type_number upload_request = 4
type_number upload_status = 5
type_number media_defined_download_initialization = 6
type_number media_defined_download_request = 7
type_number operator_defined_download_initialization = 8
type_number operator_defined_download_list = 9
type_number operator_defined_download_answer = 10
type_number download_status = 11
type_number invalid_type = 12

abbrev pub same_type : FileType → FileType → Bool
same_type t u = type_number t == type_number u

-- `extensionTypeInfoIndex`
abbrev pub extension_type_info : List (Bytes × FileType)
extension_type_info =
    (b'L' ∷ b'C' ∷ b'I' ∷ [], load_configuration_initialization)
    ∷ (b'L' ∷ b'C' ∷ b'L' ∷ [], load_configuration_list)
    ∷ (b'L' ∷ b'C' ∷ b'S' ∷ [], load_configuration_status)
    ∷ (b'L' ∷ b'U' ∷ b'I' ∷ [], upload_initialization)
    ∷ (b'L' ∷ b'U' ∷ b'R' ∷ [], upload_request)
    ∷ (b'L' ∷ b'U' ∷ b'S' ∷ [], upload_status)
    ∷ (b'L' ∷ b'N' ∷ b'D' ∷ [], media_defined_download_initialization)
    ∷ (b'L' ∷ b'N' ∷ b'R' ∷ [], media_defined_download_request)
    ∷ (b'L' ∷ b'N' ∷ b'O' ∷ [], operator_defined_download_initialization)
    ∷ (b'L' ∷ b'N' ∷ b'L' ∷ [], operator_defined_download_list)
    ∷ (b'L' ∷ b'N' ∷ b'A' ∷ [], operator_defined_download_answer)
    ∷ (b'L' ∷ b'N' ∷ b'S' ∷ [], download_status)
    ∷ []

-- The search in the index by type.
abbrev pub find_type : List (Bytes × FileType) → FileType → Bytes
find_type [] type = []
find_type (element ∷ index) type =
    let rest = find_type index type in if same_type element.1 type then element.0 else rest

-- The search in the index by extension.
abbrev pub find_extension : List (Bytes × FileType) → Bytes → FileType
find_extension [] extension = invalid_type
find_extension (element ∷ index) extension =
    let rest = find_extension index extension in
    if same_text element.0 extension then element.1 else rest

-- `ProtocolFilename::extension`
unfoldable pub extension_of : FileType → Bytes
extension_of type = find_type extension_type_info type

-- `ProtocolFilename::fileType( extension )`
pub file_type : Bytes → FileType
file_type extension = find_extension extension_type_info extension

-- `ProtocolFilename::split`
abbrev pub split : Bytes → Bytes × Bytes
split filename = split_at b'.' filename

-- `ProtocolFilename::isProtocolFilename`
pub is_protocol_filename : Bytes → Bool
is_protocol_filename filename =
    let parts = split filename in
    is_target_id parts.0 && not (same_type (file_type parts.1) invalid_type)

pub record ProtocolFilename : Type 0 where
  pub target_id : TargetId
  pub type : FileType

-- `ProtocolFilename::ProtocolFilename( filename )`
pub filename_of : Bytes → ProtocolFilename
filename_of filename =
    let parts = split filename in
    record { target_id = target_id_of parts.0; type = file_type parts.1 }

-- `ProtocolFilename::operator std::string`
abbrev pub text_of : ProtocolFilename → Bytes
text_of f = to_string f.target_id ++ b'.' ∷ extension_of f.type

-- `ProtocolFilename::operator bool`
abbrev pub is_named : ProtocolFilename → Bool
is_named f = is_valid f.target_id && not (same_type f.type invalid_type)

-- `ProtocolFilename::targetId( targetId )`, for a text and for a target identifier.
abbrev pub set_target_text : Bytes → ProtocolFilename → ProtocolFilename
set_target_text target_id f = record f { target_id = target_id_of target_id }

abbrev pub set_target_id : TargetId → ProtocolFilename → ProtocolFilename
set_target_id target_id f = record f { target_id = target_id }

-- `ProtocolFilename::fileType( fileType )`
abbrev pub set_file_type : FileType → ProtocolFilename → ProtocolFilename
set_file_type type f = record f { type = type }

-- `ProtocolFilename::thwId( thwId )` and `ProtocolFilename::position( position )`
abbrev pub set_name_thw_id : Bytes → ProtocolFilename → ProtocolFilename
set_name_thw_id thw_id f = record f { target_id = set_thw_id thw_id f.target_id }

abbrev pub set_name_position : Bytes → ProtocolFilename → ProtocolFilename
set_name_position position f = record f { target_id = set_position position f.target_id }
