-- ===== src/Files/Pairs.antt =====
-- Lists whose entries are two strings each: what they take in a file.
use arinc_615a_gui_tool_suit.Base.{
  ◌+◌, ◌*◌, ◌^◌, ◌≤◌, ◌<◌, List, [], ◌∷◌, ◌++◌, arith, Bytes, length, concat_map, All,
  length-append,
}
use arinc_615a_gui_tool_suit.RawData.{RawData}
use arinc_615a_gui_tool_suit.Files.Counted
use arinc_615a_gui_tool_suit.Files.Text.RoundTrip.{IsStored, stored, length-stored_le}

module _ {A : Type 0} (first second : A → Bytes) where
  abbrev pub IsStoredPair : A → Type 0
  IsStoredPair e = IsStored (first e) × IsStored (second e)

module _ ⦃lib : RawData⦄ {A : Type 0} (first second : A → Bytes) where
  abbrev pub pair_bytes : A → Bytes
  pair_bytes e = stored (first e) ++ stored (second e)

  length-pairs_le :
      (es : List A)
      → All (IsStoredPair first second) es
      → length (concat_map pair_bytes es) ≤ length es * 510
  length-pairs_le [] h = omega arith
  length-pairs_le (e ∷ es) h = omega (
    arith,
    length-append (pair_bytes e) (concat_map pair_bytes es),
    length-append (stored (first e)) (stored (second e)),
    length-stored_le (first e) h.0.0,
    length-stored_le (second e) h.0.1,
    length-pairs_le es h.1,
  )

  -- A list that a file can hold never overflows the size field.
  pub pairs_fit :
      (es : List A)
      → All (IsStoredPair first second) es
      → length es < 65536
      → 6 + length (Counted.payload pair_bytes (IsStoredPair first second) es) < 2 ^ 32
  pairs_fit es h number = omega (
    arith,
    Counted.length-payload pair_bytes (IsStoredPair first second) es,
    length-pairs_le es h,
  )
