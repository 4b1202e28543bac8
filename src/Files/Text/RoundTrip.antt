-- ===== src/Files/Text/RoundTrip.antt =====
-- What the string functions do on every input.
use arinc_615a_gui_tool_suit.Base.{
  ℕ, zero, suc, ◌-◌, ◌≤◌, ◌<◌, ◌≡◌, refl, List, [], ◌∷◌, ◌++◌, arith, Bytes, true, false, some,
  ◌==◌, if◌then◌else◌, ok, err, arinc_615a_exception, length, replicate, length-append,
  length-replicate, take-append, drop-replicate, replicate-append_one, drop-append, append_assoc,
  All, concat_map, ◌*◌, Reads, le→leb,
}
use arinc_615a_gui_tool_suit.RawData.{RawData}
use native.Mathlib.Nat.{add_comm}
use native.Mathlib.Numerals.{add-one}
use arinc_615a_gui_tool_suit.Files.Text.{
  find_null, is_empty, set_back_null, raw_size, field_size, too_long, remaining_has, decode_text,
  string_decode, fill_string, string_encode, text_bytes,
}

-- No character is the NULL that ends a string.
abbrev pub IsText : Bytes → Type 0
IsText text = All (λ c. 0 < c) text

pub find_null-append :
    (text rest : Bytes) → IsText text → find_null (text ++ 0 ∷ rest) ≡ some (length text)
unfolding find_null
find_null-append [] rest h = refl
find_null-append (c ∷ text) rest h = rw (find_null-append text rest h.1) (ground arith)

set_back_null-replicate : (n : ℕ) → set_back_null (replicate (suc n) 0) ≡ replicate (suc n) 0
set_back_null-replicate n =
    let size : suc (length (replicate {A = ℕ} n 0)) - 1 ≡ n =
      omega (arith, length-replicate {A = ℕ} n 0) in
    rw (size, ← replicate-append_one n zero)
      (rw (take-append (replicate n zero) (zero ∷ []) n (length-replicate n zero)))

-- What the length test leaves: every character and the NULL fit the field.
abbrev HasRoom : Bytes → ℕ → Type 0
HasRoom [] n = Unit {0}
HasRoom (c ∷ text) n = length (c ∷ text) < n

field_size-HasRoom :
    (text : Bytes) (fixed : ℕ) → too_long text fixed ≡ false → HasRoom text (field_size text fixed)
field_size-HasRoom [] fixed h = tt
field_size-HasRoom (c ∷ text) fixed h = ground arith

HasRoom-le : (text : Bytes) (n : ℕ) → HasRoom text n → length text ≤ n
HasRoom-le [] n h = omega arith
HasRoom-le (c ∷ text) n h = omega arith

HasRoom-suc : (text : Bytes) (n : ℕ) → HasRoom text (suc n) → length text ≤ n
HasRoom-suc [] n h = omega arith
HasRoom-suc (c ∷ text) n h = omega arith

field_size-lt :
    (text : Bytes) (fixed : ℕ)
    → fixed < 256
    → too_long text fixed ≡ false
    → field_size text fixed < 256
field_size-lt [] fixed hf h = ground arith
field_size-lt (c ∷ text) fixed hf h = ground arith

raw_size-lt : (text : Bytes) (fixed : ℕ) → too_long text fixed ≡ false → raw_size text < 256
raw_size-lt [] fixed h = omega arith
raw_size-lt (c ∷ text) fixed h = ground arith

HasRoom-lt : (text : Bytes) (n : ℕ) → length text < n → HasRoom text n
HasRoom-lt [] n h = tt
HasRoom-lt (c ∷ text) n h = h

longest_too_long : (text : Bytes) → length text ≡ 254 → too_long text 0 ≡ true
longest_too_long [] h = absurd (omega arith)
longest_too_long (c ∷ text) h = ground arith

length-field :
    (text : Bytes) (n : ℕ) → HasRoom text n → length (text ++ replicate (n - length text) 0) ≡ n
length-field text n h = omega (
  arith,
  HasRoom-le text n h,
  length-append text (replicate (n - length text) zero),
  length-replicate {A = ℕ} (n - length text) zero,
)

suc-sub_replicate : (n k : ℕ) → k ≤ n → replicate {A = ℕ} (suc n - k) 0 ≡ 0 ∷ replicate (n - k) 0
suc-sub_replicate n k h = let e : suc n - k ≡ suc (n - k) = omega arith in rw e

-- The last byte of a filled field was NULL already.
back_is_null :
    (text : Bytes) (n : ℕ)
    → HasRoom text n
    → (if is_empty text
        then replicate (n - length text) 0
        else set_back_null (replicate (n - length text) 0))
      ≡ replicate (n - length text) 0
back_is_null [] n h = refl
back_is_null (c ∷ text) n h =
    let e : n - length (c ∷ text) ≡ suc (n - length (c ∷ text) - 1) = omega arith in
    rw e (set_back_null-replicate (n - length (c ∷ text) - 1))

is_empty-append : (xs ys : Bytes) → length xs ≡ 1 → is_empty (xs ++ ys) ≡ false
is_empty-append [] ys h = absurd (omega arith)
is_empty-append (x ∷ xs) ys h = refl

module _ ⦃lib : RawData⦄ where
  open lib use {int_bytes, get_int, get_string, set_int, set_string, safe_cast}
  open lib use {length-int_bytes, set_int_lem, set_string_lem, get_int-int_bytes, get_string_lem}
  open lib use {safe_cast_lem}

  size_lem :
      (text : Bytes) (fixed : ℕ)
      → too_long text fixed ≡ false
      → (if fixed == 0 then safe_cast 1 (raw_size text) else ok fixed) ≡ ok (field_size text fixed)
  size_lem text fixed h = ground (arith, safe_cast_lem 1 (raw_size text) (raw_size-lt text fixed h))

  fill_string_lem :
      (text : Bytes) (n : ℕ)
      → HasRoom text n
      → fill_string n text (replicate (suc n) 0)
        ≡ ok (int_bytes 1 n ++ (text ++ replicate (n - length text) 0), tt)
  unfolding fill_string
  fill_string_lem text n h =
      let one = length-int_bytes 1 n in
      let span : Bytes = replicate n 0 in
      let fits : length text ≤ length span =
        omega (arith, HasRoom-le text n h, length-replicate {A = ℕ} n 0) in
      rw (set_int_lem 1 n (replicate (suc n) 0) (omega arith)) (
        rw (drop-append (int_bytes 1 n) span 1 one, take-append (int_bytes 1 n) span 1 one)
          (rw (set_string_lem text span fits, drop-replicate (length text) n zero)
            (rw (drop-append text (replicate (n - length text) 0) (length text) refl) (
              rw (take-append text (replicate (n - length text) 0) (length text) refl)
                (rw (back_is_null text n h))))))

  -- Where the length test passes the encoding is the length field, the string and NULLs.
  pub string_encode-text_bytes :
      (text : Bytes) (fixed : ℕ)
      → too_long text fixed ≡ false
      → string_encode text fixed ≡ ok (text_bytes text fixed)
  unfolding string_encode
  string_encode-text_bytes text fixed h =
      rw (h, add_comm 1 (field_size text fixed), add-one)
        (rw (size_lem text fixed h)
          (rw (fill_string_lem text (field_size text fixed) (field_size-HasRoom text fixed h))))

  pub string_encode-too_long :
      (text : Bytes) (fixed : ℕ)
      → too_long text fixed ≡ true
      → string_encode text fixed ≡ err arinc_615a_exception
  unfolding string_encode
  string_encode-too_long text fixed h = rw h

  remaining_has_lem :
      (n : ℕ) (remaining : Bytes)
      → n ≤ length remaining
      → remaining_has n remaining ≡ ok (remaining, tt)
  unfolding remaining_has
  remaining_has_lem n remaining h = rw (le→leb n (length remaining) h)

  decode_text_lem :
      (n : ℕ) (text rest : Bytes)
      → HasRoom text n
      → IsText text
      → decode_text n ((text ++ replicate (n - length text) 0) ++ rest) ≡ ok (rest, text)
  unfolding decode_text
  decode_text_lem zero [] rest h t = refl
  decode_text_lem zero (c ∷ text) rest h t = absurd (omega arith)
  decode_text_lem (suc n) text rest h t =
      let body : Bytes = text ++ replicate (suc n - length text) 0 in
      let size = length-field text (suc n) h in
      let fits : suc n ≤ length (body ++ rest) = omega (arith, length-append body rest) in
      let split : replicate {A = ℕ} (suc n - length text) 0 ≡ 0 ∷ replicate (n - length text) 0 =
        suc-sub_replicate n (length text) (HasRoom-suc text n h) in
      rw (get_string_lem (suc n) (body ++ rest) fits) (
        rw (drop-append body rest (suc n) size, take-append body rest (suc n) size)
          (rw split (
            rw (find_null-append text (replicate (n - length text) 0) t)
              (rw (take-append text _ (length text) refl)))))

  -- A field of any length that has room for the text is read.
  string_decode_field :
      (text : Bytes) (n : ℕ)
      → n < 256
      → HasRoom text n
      → IsText text
      → Reads string_decode (int_bytes 1 n ++ (text ++ replicate (n - length text) 0)) text
  unfolding string_decode
  string_decode_field text n hn room t rest =
      let body : Bytes = text ++ replicate (n - length text) 0 in
      let fits : n ≤ length (body ++ rest) =
        omega (arith, length-append body rest, length-field text n room) in
      rw (append_assoc, is_empty-append (int_bytes 1 n) _ (length-int_bytes 1 _))
        (rw (get_int-int_bytes 1 n _ hn)
          (rw (remaining_has_lem n _ fits) (decode_text_lem n text rest room t)))

  pub Reads-string_decode :
      (text : Bytes) (fixed : ℕ)
      → fixed < 256
      → too_long text fixed ≡ false
      → IsText text
      → Reads string_decode (text_bytes text fixed) text
  Reads-string_decode text fixed hf h t =
      string_decode_field text (field_size text fixed) (field_size-lt text fixed hf h)
        (field_size-HasRoom text fixed h) t

module _ ⦃lib : RawData⦄ where
  open lib use {int_bytes, get_int-int_bytes, get_string_lem, length-int_bytes}

  -- A text without a NULL that `string_encode` has room for, in a field of the fixed length or in one
  -- of its own length, is encoded, and `string_decode` reads it back, whatever bytes follow it.
  pub string_decode-string_encode :
      (text rest : Bytes) (fixed : ℕ)
      → fixed < 256
      → too_long text fixed ≡ false
      → IsText text
      → (raw_string : Bytes) × (string_encode text fixed ≡ ok raw_string)
        × (string_decode (raw_string ++ rest) ≡ ok (rest, text))
  string_decode-string_encode text rest fixed hf fits clean = (
    text_bytes text fixed,
    string_encode-text_bytes text fixed fits,
    Reads-string_decode text fixed hf fits clean rest,
  )

  -- A text of 254 characters, none of them NULL: the decoder reads it from a field of length 255,
  -- whatever bytes follow, and the encoder refuses it.
  string_decode_longest :
      (text rest : Bytes)
      → IsText text
      → length text ≡ 254
      → (string_decode (int_bytes 1 255 ++ (text ++ 0 ∷ []) ++ rest) ≡ ok (rest, text))
        × (string_encode text 0 ≡ err arinc_615a_exception)
  string_decode_longest text rest clean size =
      let one : 255 - length text ≡ 1 = omega arith in
      (
        rw one at (
            string_decode_field text 255 (omega arith) (HasRoom-lt text 255 (omega arith)) clean
              rest),
        string_encode-too_long text 0 (longest_too_long text size),
      )

-- A string that a protocol file can hold: no NULL in it, and at most 253 characters.
abbrev pub IsStored : Bytes → Type 0
IsStored text = IsText text × (length text < 254)

too_long_stored : (text : Bytes) → length text < 254 → too_long text 0 ≡ false
too_long_stored [] h = refl
too_long_stored (c ∷ text) h = ground arith

raw_size_le : (text : Bytes) → length text < 254 → field_size text 0 ≤ 254
raw_size_le [] h = omega arith
raw_size_le (c ∷ text) h = omega arith

module _ ⦃lib : RawData⦄ where
  open lib use {int_bytes, length-int_bytes}

  -- The bytes of a stored string.
  abbrev pub stored : Bytes → Bytes
  stored text = text_bytes text 0

  pub string_encode-stored :
      (text : Bytes) → IsStored text → string_encode text 0 ≡ ok (stored text)
  string_encode-stored text h = string_encode-text_bytes text 0 (too_long_stored text h.1)

  pub Reads-stored : (text : Bytes) → IsStored text → Reads string_decode (stored text) text
  Reads-stored text h = Reads-string_decode text 0 (omega arith) (too_long_stored text h.1) h.0

  pub length-stored_le :
      (text : Bytes) → IsStored text → (1 ≤ length (stored text)) × (length (stored text) ≤ 255)
  length-stored_le text h =
      let room = field_size-HasRoom text 0 (too_long_stored text h.1) in
      let field = length-field text (field_size text 0) room in
      let whole =
        length-append (int_bytes 1 (field_size text 0))
          (text ++ replicate (field_size text 0 - length text) 0) in
      omega (arith, length-int_bytes 1 (field_size text 0), raw_size_le text (h.1))

  pub concat_map-stored_le :
      (texts : List Bytes)
      → All IsStored texts
      → length (concat_map stored texts) ≤ length texts * 255
  concat_map-stored_le [] h = omega arith
  concat_map-stored_le (text ∷ texts) h = omega (
    arith,
    length-append (stored text) (concat_map stored texts),
    length-stored_le text h.0,
    concat_map-stored_le texts h.1,
  )
