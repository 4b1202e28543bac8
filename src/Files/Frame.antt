-- ===== src/Files/Frame.antt =====
-- What the encoders and decoders of the protocol files share: room for the header, the header at
-- the end of the encoding, and a payload read to its end.
use arinc_615a_gui_tool_suit.Base.{
  ℕ, ◌+◌, ◌%◌, ◌^◌, ◌<◌, ◌≡◌, List, [], ◌∷◌, ◌++◌, arith, Bytes, ok, Coder, length, replicate,
  length-append, append-nil, Reads, drop-eq_nil, length-replicate, All, repeat, concat_map,
  Reads-repeat,
}
use arinc_615a_gui_tool_suit.RawData.{RawData}
use arinc_615a_gui_tool_suit.Buffer.{set_from, ints_bytes, set_ints_lem, widths}
use arinc_615a_gui_tool_suit.Codes.{Version}
use arinc_615a_gui_tool_suit.Files.ProtocolFile.{insert_header, decode_header, header_size}
use arinc_615a_gui_tool_suit.Files.ProtocolFile.Header.{
  IsSupported, header_bytes, length-header_bytes, insert_header_lem, decode_header_lem,
}

pub Reads-whole :
    {A : Type 0} (d : Coder A) (bytes : Bytes) (a : A) → Reads d bytes a → d bytes ≡ ok ([], a)
Reads-whole d bytes a h = rw append-nil at (h [])

-- A list that fills the rest of a file.
pub repeat_whole :
    {A : Type 0} (body : Coder A) (bytes : A → Bytes) (P : A → Type 0)
    → ((x : A) → P x → Reads body (bytes x) x)
    → (xs list : List A) → All P xs
    → repeat body (length xs) list (concat_map bytes xs) ≡ ok ([], list ++ xs)
repeat_whole body bytes P each xs list h =
    Reads-whole (repeat body (length xs) list) (concat_map bytes xs) (list ++ xs)
      (Reads-repeat body bytes P each xs list h)

module _ ⦃lib : RawData⦄ where
  -- A protocol file: the header and the payload.
  abbrev pub file_bytes : Version → Bytes → Bytes
  file_bytes version payload = header_bytes version ((6 + length payload) % 2 ^ 32) ++ payload

  pub length-file_bytes :
      (version : Version) (payload : Bytes)
      → length (file_bytes version payload) ≡ 6 + length payload
  length-file_bytes version payload = omega (
    arith,
    length-append (header_bytes version ((6 + length payload) % 2 ^ 32)) payload,
    length-header_bytes version ((6 + length payload) % 2 ^ 32),
  )

  -- The first numbers fill the buffer that was made with room for them.
  pub set_first :
      (ints : List (ℕ × ℕ)) (n : ℕ)
      → widths ints ≡ n
      → set_from header_size ints (0 ∷ 0 ∷ 0 ∷ 0 ∷ 0 ∷ 0 ∷ replicate n 0)
        ≡ ok ((0 ∷ 0 ∷ 0 ∷ 0 ∷ 0 ∷ 0 ∷ []) ++ ints_bytes ints, tt)
  unfolding set_from
  set_first ints n h =
      let room : Bytes = replicate n 0 in
      let size : length room ≡ n = length-replicate n 0 in
      rw (set_ints_lem ints room (omega arith), drop-eq_nil (widths ints) room (omega arith))
        (rw append-nil)

  -- The header closes the encoding.
  pub insert_header_last :
      (version : Version) (payload : Bytes)
      → insert_header version (0 ∷ 0 ∷ 0 ∷ 0 ∷ 0 ∷ 0 ∷ payload)
        ≡ ok (file_bytes version payload, tt)
  insert_header_last version payload = insert_header_lem version payload

  pub decode_header_first :
      (version : Version) (payload : Bytes)
      → IsSupported version
      → 6 + length payload < 2 ^ 32
      → decode_header (file_bytes version payload) ≡ ok (payload, version)
  decode_header_first version payload h fits =
      let e : (6 + length payload) % 2 ^ 32 ≡ 6 + length payload = omega arith in
      rw e (decode_header_lem version payload h fits)
