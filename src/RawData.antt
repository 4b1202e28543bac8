-- ===== src/RawData.antt =====
-- The interface to the helper library's raw data functions (`helper/RawData.hpp`,
-- `helper/SafeCast.hpp`), which are no part of this repository: operations and the behaviour that
-- the protocol files and the FIND packets rely on. An integer of `w` bytes is a number below
-- `256 ^ w`; an `int16_t` is its bit pattern.
use arinc_615a_gui_tool_suit.Base.{
  ℕ, ◌^◌, ◌≤◌, ◌<◌, ◌≡◌, ◌++◌, Bytes, Result, ok, Coder, length, take, drop, All,
}

-- A number that a `std::byte` can be.
abbrev pub IsByte : ℕ → Type 0
IsByte b = b < 256

pub record RawData : Type 0 where
  -- The bytes that `RawData_setInt` writes for a value.
  pub int_bytes : ℕ → ℕ → Bytes
  -- `RawData_setInt< T >( span, value )`: the span after the call; the rest of it is returned.
  pub set_int : ℕ → ℕ → Bytes → Bytes
  -- `RawData_getInt< T >( span )`
  pub get_int : ℕ → Coder ℕ
  -- `RawData_setString( span, text )`, the text first: the span after the call.
  pub set_string : Bytes → Bytes → Bytes
  -- `RawData_getString( span, length )`
  pub get_string : ℕ → Coder Bytes
  -- `safeCast< T >( value )`
  pub safe_cast : ℕ → ℕ → Result ℕ
  pub length-int_bytes : (w v : ℕ) → length (int_bytes w v) ≡ w
  pub set_int_lem :
      (w v : ℕ) (span : Bytes) → w ≤ length span → set_int w v span ≡ int_bytes w v ++ drop w span
  pub get_int-int_bytes :
      (w v : ℕ) (rest : Bytes) → v < 256 ^ w → get_int w (int_bytes w v ++ rest) ≡ ok (rest, v)
  pub get_int_sound :
      (w v : ℕ) (span rest : Bytes)
      → get_int w span ≡ ok (rest, v)
      → (span ≡ int_bytes w v ++ rest) × (v < 256 ^ w)
  pub get_int_reads :
      (w : ℕ) (span : Bytes)
      → All IsByte span
      → w ≤ length span
      → (v : ℕ) × (get_int w span ≡ ok (drop w span, v))
  pub set_string_lem :
      (text span : Bytes)
      → length text ≤ length span
      → set_string text span ≡ text ++ drop (length text) span
  pub get_string_lem :
      (n : ℕ) (span : Bytes) → n ≤ length span → get_string n span ≡ ok (drop n span, take n span)
  pub safe_cast_lem : (w v : ℕ) → v < 256 ^ w → safe_cast w v ≡ ok v
