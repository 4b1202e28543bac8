-- ===== src/Tests/Fields.antt =====
-- Tests of the encodings of strings and ratios.
use arinc_615a_gui_tool_suit.Base.{◌≡◌, refl, [], ◌∷◌, ◌++◌, ok}
use arinc_615a_gui_tool_suit.BigEndian.{big_endian}
use arinc_615a_gui_tool_suit.Files.Ratio.{ratio_encode}
use arinc_615a_gui_tool_suit.Files.Text.{string_encode, fill_string}
use arinc_615a_gui_tool_suit.Tests.Data.{test_123}

-- The length, the characters and the NULL, as in the unit test of the string encoding.
string_encode_test : string_encode test_123 0 ≡ ok (9 ∷ test_123 ++ 0 ∷ [])
unfolding string_encode fill_string
string_encode_test = refl

ratio_encode_test :
    (ratio_encode 0 ≡ 32 ∷ 32 ∷ 48 ∷ [])
    × (ratio_encode 25 ≡ 32 ∷ 50 ∷ 53 ∷ [])
    × (ratio_encode 100 ≡ 49 ∷ 48 ∷ 48 ∷ [])
unfolding ratio_encode
ratio_encode_test = (refl, refl, refl)
