-- ===== src/Files/Ratio.antt =====
-- `Ratio` (lib/arinc_615a/information/Ratio.cpp) and its three characters in a protocol file
-- (lib/arinc_615a/files/Ratio.cpp).
pub mod RoundTrip
use arinc_615a_gui_tool_suit.Base.{
  ℕ, ◌%◌, ◌^◌, ◌++◌, Bytes, Option, none, some, leb, ltb, if◌then◌else◌, Result, ok, err,
  arinc_615a_exception, Coder, ◌>>=◌, ◌>>◌, lift, check, length, decimal, stoul, replicate, ◌-◌,
}
use arinc_615a_gui_tool_suit.RawData.{RawData}

-- `Ratio::Ratio( unsigned int )` and `Ratio::operator =`: a ratio is its value, up to 100.
unfoldable pub make_ratio : ℕ → Result ℕ
make_ratio ratio = if ltb 100 ratio then err arinc_615a_exception else ok ratio

-- `std::format( "{:3}", ratio.value() )`: right aligned over at least three characters.
unfoldable pub ratio_encode : ℕ → Bytes
ratio_encode ratio = let digits = decimal 9 ratio in replicate (3 - length digits) b' ' ++ digits

-- `std::stoul` and the cast to `unsigned int`, the range check and the constructor.
unfoldable pub ratio_of : Option ℕ → Coder ℕ
ratio_of none = λ remaining. err arinc_615a_exception
ratio_of (some value) =
    check (leb (value % 2 ^ 32) 100) arinc_615a_exception >> lift (make_ratio (value % 2 ^ 32))

module _ ⦃lib : RawData⦄ where
  open lib use {get_string}

  unfoldable pub ratio_decode : Coder ℕ
  ratio_decode raw_data =
      (do
        check (leb 3 (length raw_data)) arinc_615a_exception
        ratio_string ← get_string 3
        ratio_of (stoul ratio_string))
        raw_data
