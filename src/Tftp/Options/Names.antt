-- ===== src/Tftp/Options/Names.antt =====
-- The names of the options are different.
use arinc_615a_gui_tool_suit.Base.{◌≡◌, refl, false, same_text}
use arinc_615a_gui_tool_suit.Tftp.Options.{
  CheckValueType, not_used, crc8, crc16, crc32, md5, sha1, sha256, sha512, crc64, port_name,
  part_number_name, checksum_name,
}

-- No check value has the name of another option.
pub port-checksum : (t : CheckValueType) → same_text (checksum_name t) port_name ≡ false
port-checksum not_used = refl
port-checksum crc8 = refl
port-checksum crc16 = refl
port-checksum crc32 = refl
port-checksum md5 = refl
port-checksum sha1 = refl
port-checksum sha256 = refl
port-checksum sha512 = refl
port-checksum crc64 = refl

pub part_number-checksum :
    (t : CheckValueType) → same_text (checksum_name t) part_number_name ≡ false
part_number-checksum not_used = refl
part_number-checksum crc8 = refl
part_number-checksum crc16 = refl
part_number-checksum crc32 = refl
part_number-checksum md5 = refl
part_number-checksum sha1 = refl
part_number-checksum sha256 = refl
part_number-checksum sha512 = refl
part_number-checksum crc64 = refl

pub checksum-port : (t : CheckValueType) → same_text port_name (checksum_name t) ≡ false
checksum-port not_used = refl
checksum-port crc8 = refl
checksum-port crc16 = refl
checksum-port crc32 = refl
checksum-port md5 = refl
checksum-port sha1 = refl
checksum-port sha256 = refl
checksum-port sha512 = refl
checksum-port crc64 = refl

pub checksum-part_number :
    (t : CheckValueType) → same_text part_number_name (checksum_name t) ≡ false
checksum-part_number not_used = refl
checksum-part_number crc8 = refl
checksum-part_number crc16 = refl
checksum-part_number crc32 = refl
checksum-part_number md5 = refl
checksum-part_number sha1 = refl
checksum-part_number sha256 = refl
checksum-part_number sha512 = refl
checksum-part_number crc64 = refl
