-- ===== src/Files/Text.antt =====
-- `String_encode` and `String_decode` (lib/arinc_615a/files/String.cpp): a length byte, the
-- characters and a terminating NULL.
pub mod RoundTrip
use arinc_615a_gui_tool_suit.Base.{
  ℕ, zero, suc, ◌+◌, ◌-◌, ◌≤◌, ◌<◌, ◌≡◌, refl, sym, ap, ◌∙◌, inl, inr, List, [], ◌∷◌, ◌++◌, arith,
  Bytes, Bool, true, false, ◌&&◌, ◌||◌, not, Option, none, some, ltb, leb, ◌==◌, if◌then◌else◌,
  Bool-cases, Result, ok, err, arinc_615a_exception, Coder, ◌>>=◌, ◌>>◌, pure, lift, check,
  buffer_of, length, take, drop, replicate, length-append, length-drop, length-replicate,
  take-append, drop-append, append_assoc, append-nil, All, Reads, le→leb,
}
use arinc_615a_gui_tool_suit.RawData.{RawData}
use arinc_615a_gui_tool_suit.Buffer.{extend}

-- `string.find( '\0' )`; `none` is `npos`.
unfoldable pub find_null : Bytes → Option ℕ
find_null [] = none
find_null (c ∷ text) =
    let rest = find_null text in
    if c == 0 then some 0 else elim rest [ none ↦ none | some n ↦ some (suc n) ]

abbrev pub is_empty : {A : Type 0} → List A → Bool
is_empty [] = true
is_empty (c ∷ text) = false

-- `substr( 0, nullTermPos )`, or the exception where there is no NULL.
abbrev cut_at : Option ℕ → Bytes → Coder Bytes
cut_at none text span = err arinc_615a_exception
cut_at (some n) text span = ok (span, take n text)

-- `remaining.back() = std::byte{ 0U }`, at the end of a buffer.
abbrev set_back_null : Bytes → Bytes
set_back_null buffer = take (length buffer - 1) buffer ++ 0 ∷ []

-- `rawStringSize`: an empty string has no NULL.
abbrev pub raw_size : Bytes → ℕ
raw_size [] = 0
raw_size (c ∷ text) = length (c ∷ text) + 1

-- The length field: the fixed length, if one is asked for.
abbrev pub field_size : Bytes → ℕ → ℕ
field_size text fixed = if fixed == 0 then raw_size text else fixed

-- The condition under which `String_encode` throws.
abbrev pub too_long : Bytes → ℕ → Bool
too_long text fixed = leb 255 (raw_size text) || (not (fixed == 0) && ltb fixed (raw_size text))

module _ ⦃lib : RawData⦄ where
  open lib use {int_bytes, get_int, get_string, set_int, set_string, safe_cast}

  remaining_has : ℕ → Coder (Unit {0})
  remaining_has n remaining = check (leb n (length remaining)) arinc_615a_exception remaining

  -- `if ( stringLength > 0 )`
  decode_text : ℕ → Coder Bytes
  decode_text zero = pure []
  decode_text (suc n) = get_string (suc n) >>= λ text. cut_at (find_null text) text

  pub string_decode : Coder Bytes
  string_decode raw_data =
      (do
        check (not (is_empty raw_data)) arinc_615a_exception
        string_length ← get_int 1
        remaining_has string_length
        decode_text string_length)
        raw_data

  -- The length, then the characters, then a NULL at the end.
  unfoldable pub fill_string : ℕ → Bytes → Coder (Unit {0})
  fill_string size text raw_string =
      let sized = set_int 1 size raw_string in
      let copied = set_string text (drop 1 sized) in
      let remaining = drop (length text) copied in
      ok (
        take 1 sized
            ++ (take (length text) copied
                ++ (if is_empty text then remaining else set_back_null remaining)),
        tt,
      )

  unfoldable pub string_encode : Bytes → ℕ → Result Bytes
  string_encode text fixed = buffer_of (
      (do
        check (not (too_long text fixed)) arinc_615a_exception
        size ← lift (if fixed == 0 then safe_cast 1 (raw_size text) else ok fixed)
        extend (1 + field_size text fixed)
        fill_string size text)
        [])

  -- What `string_encode` produces: the length field, the characters, and NULLs up to that length.
  abbrev pub text_bytes : Bytes → ℕ → Bytes
  text_bytes text fixed =
      int_bytes 1 (field_size text fixed)
      ++ (text ++ replicate (field_size text fixed - length text) 0)
