-- ===== src/Buffer.antt =====
-- The steps by which the encoders grow `rawData` and write numbers into it, and what they append.
use arinc_615a_gui_tool_suit.Base.{
  ℕ, zero, ◌+◌, ◌-◌, ◌≤◌, ◌≡◌, refl, List, [], ◌∷◌, ◌++◌, arith, Bytes, ok, Coder, length, take,
  drop, replicate, length-append, length-drop, length-replicate, take-append, drop-drop,
  drop-eq_nil, drop-append, append_assoc, append-nil, Writes, ◌>>◌,
}
use arinc_615a_gui_tool_suit.RawData.{RawData}

-- `rawData.insert( rawData.end(), x.begin(), x.end() )`
abbrev pub insert_end : Bytes → Coder (Unit {0})
insert_end bytes buffer = ok (buffer ++ bytes, tt)

-- `rawData.resize( rawData.size() + n )`
abbrev pub extend : ℕ → Coder (Unit {0})
extend n buffer = ok (buffer ++ replicate n 0, tt)

-- The bytes of the numbers in a list, each with its width in bytes.
abbrev pub widths : List (ℕ × ℕ) → ℕ
widths [] = 0
widths ((w, v) ∷ ints) = w + widths ints

module _ ⦃lib : RawData⦄ where
  open lib use {int_bytes, set_int, length-int_bytes, set_int_lem}

  abbrev pub ints_bytes : List (ℕ × ℕ) → Bytes
  ints_bytes [] = []
  ints_bytes ((w, v) ∷ ints) = int_bytes w v ++ ints_bytes ints

  -- `nextData = RawData_setInt( nextData, v )`, once for each number.
  unfoldable pub set_ints : List (ℕ × ℕ) → Bytes → Bytes
  set_ints [] span = span
  set_ints ((w, v) ∷ ints) span =
      take w (set_int w v span) ++ set_ints ints (drop w (set_int w v span))

  -- The numbers written from an offset of the buffer on, and at its end (`.last( n )`).
  unfoldable pub set_from : ℕ → List (ℕ × ℕ) → Coder (Unit {0})
  unfolding set_ints
  set_from offset ints buffer = ok (take offset buffer ++ set_ints ints (drop offset buffer), tt)

  unfoldable pub set_last : ℕ → List (ℕ × ℕ) → Coder (Unit {0})
  unfolding set_from
  set_last n ints buffer = set_from (length buffer - n) ints buffer

  pub set_ints_lem :
      (ints : List (ℕ × ℕ)) (span : Bytes)
      → widths ints ≤ length span
      → set_ints ints span ≡ ints_bytes ints ++ drop (widths ints) span
  unfolding set_ints
  set_ints_lem [] span h = refl
  set_ints_lem ((w, v) ∷ ints) span h =
      let fits : w ≤ length span = omega arith in
      let rest : widths ints ≤ length (drop w span) = omega (arith, length-drop w span) in
      let one = set_int_lem w v span fits in
      let len = length-int_bytes w v in
      rw (one, take-append (int_bytes w v) (drop w span) w len)
        (rw (drop-append (int_bytes w v) (drop w span) w len, set_ints_lem ints (drop w span) rest)
          (rw (drop-drop w (widths ints) span, append_assoc)))

  -- Room for the numbers, and the numbers in it: what is appended.
  pub Writes-set_last :
      (n : ℕ) (ints : List (ℕ × ℕ))
      → widths ints ≡ n
      → Writes (extend n >> set_last n ints) (ints_bytes ints) tt
  unfolding set_last
  Writes-set_last n ints h buffer =
      let at : length (buffer ++ replicate n 0) - n ≡ length buffer =
        omega (arith, length-append buffer (replicate n 0), length-replicate n zero) in
      let room : widths ints ≤ length (replicate n zero) = omega (arith, length-replicate n zero) in
      let full : drop (widths ints) (replicate n zero) ≡ [] =
        drop-eq_nil (widths ints) (replicate n zero) (omega (arith, length-replicate n zero)) in
      rw (at, take-append buffer (replicate n zero) (length buffer) refl)
        (rw (drop-append buffer (replicate n zero) (length buffer) refl)
          (rw (set_ints_lem ints (replicate n zero) room, full, append-nil)))

  -- Numbers in front of other bytes.
  abbrev pub ints_before : List (ℕ × ℕ) → Bytes → Bytes
  ints_before [] rest = rest
  ints_before ((w, v) ∷ ints) rest = int_bytes w v ++ ints_before ints rest

  pub ints_bytes-append :
      (ints : List (ℕ × ℕ)) (rest : Bytes) → ints_bytes ints ++ rest ≡ ints_before ints rest
  ints_bytes-append [] rest = refl
  ints_bytes-append ((w, v) ∷ ints) rest =
      rw (append_assoc (int_bytes w v) (ints_bytes ints) rest, ints_bytes-append ints rest)

  pub length-ints_before :
      (ints : List (ℕ × ℕ)) (rest : Bytes)
      → length (ints_before ints rest) ≡ widths ints + length rest
  length-ints_before [] rest = omega arith
  length-ints_before ((w, v) ∷ ints) rest = omega (
    arith,
    length-append (int_bytes w v) (ints_before ints rest),
    length-int_bytes w v,
    length-ints_before ints rest,
  )
