-- ===== src/Files/Ratio/RoundTrip.antt =====
-- A ratio is written in three characters and read back; what is read is a ratio.
use arinc_615a_gui_tool_suit.Base.{
  ℕ, zero, suc, ◌≤◌, ◌<◌, ◌≡◌, refl, ◌++◌, arith, Bytes, Bool, true, false, ◌&&◌, Option, none,
  some, leb, ◌==◌, le→leb, ok, arinc_615a_exception, length, Reads, stoul, take-append, drop-append,
  length-append, check->>-eq-ok, >>=-eq-ok,
}
use arinc_615a_gui_tool_suit.RawData.{RawData}
use arinc_615a_gui_tool_suit.Files.Ratio.{make_ratio, ratio_encode, ratio_of, ratio_decode}

-- A test of every value below a bound.
all_below : ℕ → (ℕ → Bool) → Bool
all_below zero test = true
all_below (suc n) test = test n && all_below n test

all_below_sound :
    (n : ℕ) (test : ℕ → Bool) (x : ℕ) → all_below n test ≡ true → x < n → test x ≡ true
unfolding all_below
all_below_sound zero test x h lt = absurd (omega arith)
all_below_sound (suc n) test x h lt = ground (arith, all_below_sound n test x)

abbrev is_some : Option ℕ → ℕ → Bool
is_some none v = false
is_some (some w) v = w == v

is_some-eq : (o : Option ℕ) (v : ℕ) → is_some o v ≡ true → o ≡ some v
is_some-eq o v h = ground arith

-- All 101 ratios.
encode_table :
    all_below 101 (λ r. (length (ratio_encode r) == 3) && is_some (stoul (ratio_encode r)) r) ≡ true
unfolding all_below ratio_encode
encode_table = refl

pub ratio_encode_lem :
    (r : ℕ) → r ≤ 100 → (length (ratio_encode r) ≡ 3) × (stoul (ratio_encode r) ≡ some r)
ratio_encode_lem r h =
    let test = all_below_sound 101 _ r encode_table (omega arith) in
    ground (arith, is_some-eq (stoul (ratio_encode r)) r)

ratio_of-some : (r : ℕ) (rest : Bytes) → r ≤ 100 → ratio_of (some r) rest ≡ ok (rest, r)
unfolding ratio_of make_ratio
ratio_of-some r rest h = ground arith

ratio_of-le :
    (o : Option ℕ) (raw_data rest : Bytes) (r : ℕ) → ratio_of o raw_data ≡ ok (rest, r) → r ≤ 100
unfolding ratio_of make_ratio
ratio_of-le none raw_data rest r h = cc
ratio_of-le (some v) raw_data rest r h = ground arith

module _ ⦃lib : RawData⦄ where
  open lib use {get_string, get_string_lem}

  -- A ratio is read back from its three characters.
  pub Reads-ratio_decode : (r : ℕ) → r ≤ 100 → Reads ratio_decode (ratio_encode r) r
  unfolding ratio_decode
  Reads-ratio_decode r h rest =
      let (size, value) = ratio_encode_lem r h in
      let fits : 3 ≤ length (ratio_encode r ++ rest) =
        omega (arith, length-append (ratio_encode r) rest) in
      rw (le→leb 3 _ fits, get_string_lem 3 (ratio_encode r ++ rest) fits)
        (rw
          (
            drop-append (ratio_encode r) rest 3 size,
            take-append (ratio_encode r) rest 3 size,
            value,
          )
          (ratio_of-some r rest h))

  -- A ratio of at most 100 is read back from its three characters, whatever bytes follow them.
  ratio_decode-ratio_encode :
      (r : ℕ) (rest : Bytes) → r ≤ 100 → ratio_decode (ratio_encode r ++ rest) ≡ ok (rest, r)
  ratio_decode-ratio_encode r rest h = Reads-ratio_decode r h rest

  -- A ratio that is read from any bytes is at most 100.
  ratio_decode-le : (raw_data rest : Bytes) (r : ℕ) → ratio_decode raw_data ≡ ok (rest, r) → r ≤ 100
  unfolding ratio_decode
  ratio_decode-le raw_data rest r h =
      let (_, q) = check->>-eq-ok (leb 3 (length raw_data)) arinc_615a_exception _ raw_data h in
      let (b, _, v) = >>=-eq-ok (get_string 3) _ raw_data q in ratio_of-le (stoul b.1) b.0 rest r v
