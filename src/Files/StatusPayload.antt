-- ===== src/Files/StatusPayload.antt =====
-- The payload that the upload and the download status files share: the status of the operation,
-- its ratio, and a list with its size before it.
use arinc_615a_gui_tool_suit.Base.{
  ℕ, ◌+◌, ◌≤◌, ◌≡◌, List, [], ◌∷◌, ◌++◌, arith, Bytes, length, append_assoc_5, append-nil, ◌∙◌,
  length-append, concat_map,
}
use arinc_615a_gui_tool_suit.RawData.{RawData}
use arinc_615a_gui_tool_suit.Buffer.{ints_bytes, ints_before, ints_bytes-append, length-ints_before}
use arinc_615a_gui_tool_suit.Codes.{to_underlying}
use arinc_615a_gui_tool_suit.Status.{Status, IsStoredStatus}
use arinc_615a_gui_tool_suit.Files.Ratio.{ratio_encode}
use arinc_615a_gui_tool_suit.Files.Ratio.RoundTrip.{ratio_encode_lem}
use arinc_615a_gui_tool_suit.Files.Text.RoundTrip.{stored, length-stored_le}

-- The three numbers behind the description.
abbrev pub timing : Status → List (ℕ × ℕ)
timing s = (2, s.counter) ∷ (2, s.exception_timer) ∷ (2, s.estimated_time) ∷ []

module _ {A : Type 0} ⦃lib : RawData⦄ (bytes : A → Bytes) (s : Status) (ratio : ℕ) where
  open lib use {int_bytes, length-int_bytes}

  abbrev pub payload : List A → Bytes
  payload xs =
      int_bytes 2 (to_underlying s.code)
      ++ (stored s.description
          ++ ints_before (timing s)
              (ratio_encode ratio ++ (int_bytes 2 (length xs) ++ concat_map bytes xs)))

  -- The pieces in the order in which the encoders append them.
  pub payload_pieces :
      (xs : List A)
      → ints_bytes ((2, to_underlying s.code) ∷ [])
          ++ stored s.description
          ++ ints_bytes (timing s)
          ++ ratio_encode ratio
          ++ ints_bytes ((2, length xs) ∷ [])
          ++ concat_map bytes xs
        ≡ payload xs
  payload_pieces xs =
      append_assoc_5 (ints_bytes ((2, to_underlying s.code) ∷ [])) (stored s.description)
        (ints_bytes (timing s)) (ratio_encode ratio) (ints_bytes ((2, length xs) ∷ []))
        (concat_map bytes xs)
      ∙ rw (append-nil (int_bytes 2 (to_underlying s.code)), append-nil (int_bytes 2 (length xs)))
          (rw (ints_bytes-append (timing s)))

  pub length-payload_le :
      (xs : List A) (n : ℕ)
      → IsStoredStatus s
      → ratio ≤ 100
      → length (concat_map bytes xs) ≤ n
      → (14 ≤ length (payload xs)) × (length (payload xs) ≤ 268 + n)
  length-payload_le xs n h hr bound =
      let tail : Bytes = int_bytes 2 (length xs) ++ concat_map bytes xs in
      omega (
        arith,
        length-append (int_bytes 2 (to_underlying s.code))
            (stored s.description ++ ints_before (timing s) (ratio_encode ratio ++ tail)),
        length-append (stored s.description) (ints_before (timing s) (ratio_encode ratio ++ tail)),
        length-ints_before (timing s) (ratio_encode ratio ++ tail),
        length-append (ratio_encode ratio) tail,
        length-append (int_bytes 2 (length xs)) (concat_map bytes xs),
        length-int_bytes 2 (length xs),
        length-int_bytes 2 (to_underlying s.code),
        length-stored_le s.description h.description,
        ratio_encode_lem ratio hr,
      )
