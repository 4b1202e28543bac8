-- ===== src/Files/Counted.antt =====
-- The files that hold nothing but a list, its size in two bytes before it: what their encoders and
-- decoders do, whatever an entry is.
use arinc_615a_gui_tool_suit.Base.{
  ℕ, ◌+◌, ◌^◌, ◌≤◌, ◌<◌, ◌≡◌, refl, false, List, [], ◌∷◌, ◌++◌, arith, Bytes, leb, ok, err,
  arinc_615a_exception, Coder, ◌>>=◌, ◌>>◌, pure, lift, check, value_of, buffer_of, length,
  replicate, for_each, repeat, concat_map, All, Reads, Writes, Writes-for_each, le→leb,
  length-append, append-nil,
}
use arinc_615a_gui_tool_suit.RawData.{RawData}
use arinc_615a_gui_tool_suit.Buffer.{set_from}
use arinc_615a_gui_tool_suit.Codes.{Version}
use arinc_615a_gui_tool_suit.Files.ProtocolFile.{
  header_size, insert_header, decode_header, no_more_data,
}
use arinc_615a_gui_tool_suit.Files.ProtocolFile.Header.{IsSupported}
use arinc_615a_gui_tool_suit.Files.Frame.{
  repeat_whole, file_bytes, length-file_bytes, set_first, insert_header_last, decode_header_first,
}

module _ {A : Type 0} ⦃lib : RawData⦄ (bytes : A → Bytes) (P : A → Type 0) where
  open lib use {int_bytes, get_int, safe_cast, get_int-int_bytes, safe_cast_lem, length-int_bytes}

  abbrev pub payload : List A → Bytes
  payload xs = int_bytes 2 (length xs) ++ concat_map bytes xs

  pub length-payload : (xs : List A) → length (payload xs) ≡ 2 + length (concat_map bytes xs)
  length-payload xs = omega (
    arith,
    length-append (int_bytes 2 (length xs)) (concat_map bytes xs),
    length-int_bytes 2 (length xs),
  )

  pub counted_encode :
      (add : A → Coder (Unit {0}))
      → ((x : A) → P x → Writes (add x) (bytes x) tt)
      → (version : Version) (xs : List A) → All P xs
      → length xs < 65536
      → buffer_of (
          (do
            check (leb (length xs) 0xffff) arinc_615a_exception
            number ← lift (safe_cast 2 (length xs))
            set_from header_size ((2, number) ∷ [])
            for_each add xs
            insert_header version)
            (replicate 8 0))
        ≡ ok (file_bytes version (payload xs))
  counted_encode add each version xs h number =
      rw (le→leb (length xs) 0xffff (omega arith), safe_cast_lem 2 (length xs) number)
        (rw (set_first ((2, length xs) ∷ []) 2 refl) (
          rw (Writes-for_each add bytes P each xs h)
            (rw (append-nil (int_bytes 2 (length xs)), insert_header_last version (payload xs)))))

  pub counted_encode_too_many :
      (add : A → Coder (Unit {0})) (version : Version) (xs : List A)
      → 65536 ≤ length xs
      → buffer_of (
          (do
            check (leb (length xs) 0xffff) arinc_615a_exception
            number ← lift (safe_cast 2 (length xs))
            set_from header_size ((2, number) ∷ [])
            for_each add xs
            insert_header version)
            (replicate 8 0))
        ≡ err arinc_615a_exception
  counted_encode_too_many add version xs h =
      let e : leb (length xs) 0xffff ≡ false = ground arith in rw e

  pub counted_decode :
      {B : Type 0} (minimum_size : ℕ) (read : Coder A) (make : Version → List A → B)
      → ((x : A) → P x → Reads read (bytes x) x)
      → (version : Version) (xs old : List A) → IsSupported version
      → All P xs
      → length xs < 65536
      → minimum_size ≤ 6 + length (payload xs)
      → 6 + length (payload xs) < 2 ^ 32
      → value_of (
          (do
            check (leb minimum_size (length (file_bytes version (payload xs)))) arinc_615a_exception
            v ← decode_header
            number ← get_int 2
            list ← repeat read number old
            no_more_data
            pure (make v list))
            (file_bytes version (payload xs)))
        ≡ ok (make version (old ++ xs))
  counted_decode minimum_size read make each version xs old supported h number long fits =
      rw
        (length-file_bytes version (payload xs), le→leb minimum_size (6 + length (payload xs)) long)
        (rw (decode_header_first version (payload xs) supported fits) (
          rw (get_int-int_bytes 2 (length xs) _ number)
            (rw (repeat_whole read bytes P each xs old h))))
