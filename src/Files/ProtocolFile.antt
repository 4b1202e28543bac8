-- ===== src/Files/ProtocolFile.antt =====
-- The header of every protocol file (lib/arinc_615a/files/ProtocolFile.cpp): the size of the whole
-- file in four bytes, and the protocol version in two.
pub mod Header
use arinc_615a_gui_tool_suit.Base.{
  ℕ, ◌%◌, ◌^◌, [], ◌∷◌, Bytes, Option, leb, ◌==◌, if◌then◌else◌, Result, ok, err,
  arinc_615a_exception, Coder, ◌>>=◌, ◌>>◌, lift, check, length,
}
use arinc_615a_gui_tool_suit.RawData.{RawData}
use arinc_615a_gui_tool_suit.Buffer.{set_from}
use arinc_615a_gui_tool_suit.Codes.{Version, arinc_615a_2, arinc_615a_34, version_code}

abbrev pub header_size : ℕ
header_size = 6

-- The `switch` on the version: version 1 is not supported.
unfoldable pub supported_version : ℕ → Result Version
supported_version version =
    if version == 0x4133
    then ok arinc_615a_2
    else if version == 0x4134
    then ok arinc_615a_34
    else err arinc_615a_exception

-- The final test of the decoders for data behind the last field.
abbrev pub no_more_data : Coder (Unit {0})
no_more_data remaining = check (length remaining == 0) arinc_615a_exception remaining

module _ ⦃lib : RawData⦄ where
  open lib use {get_int}

  -- `insertHeader`: `static_cast< uint32_t >( rawData.size() )`, then the version.
  pub insert_header : Version → Coder (Unit {0})
  insert_header version raw_data =
      set_from 0 ((4, length raw_data % 2 ^ 32) ∷ (2, version_code version) ∷ []) raw_data

  -- `decodeHeader`
  unfoldable pub decode_header : Coder Version
  decode_header raw_data =
      (do
        check (leb header_size (length raw_data)) arinc_615a_exception
        size ← get_int 4
        check (size == length raw_data) arinc_615a_exception
        version ← get_int 2
        lift (supported_version version))
        raw_data
