-- ===== src/Files/ProtocolFile/Header.antt =====
-- The header written and read, and the size that it ties a file to.
use arinc_615a_gui_tool_suit.Base.{
  ℕ, ◌+◌, ◌%◌, ◌^◌, ◌<◌, ◌≡◌, refl, sym, ◌∙◌, ◌≢◌, [], ◌∷◌, ◌++◌, arith, Bytes, leb, ◌==◌, ok,
  arinc_615a_exception, lift, length, take, replicate, length-append, take-append, append_assoc,
  append-nil, le→leb, ==_refl, ==→eq, check->>-eq-ok, >>=-eq-ok,
}
use arinc_615a_gui_tool_suit.RawData.{RawData}
use arinc_615a_gui_tool_suit.Buffer.{set_from, ints_bytes, set_ints_lem}
use arinc_615a_gui_tool_suit.Codes.{Version, arinc_615a_1, version_code}
use arinc_615a_gui_tool_suit.Files.ProtocolFile.{
  supported_version, insert_header, decode_header, header_size, no_more_data,
}

abbrev pub IsSupported : Version → Type 0
IsSupported version = version ≢ arinc_615a_1

supported_version-version_code :
    (version : Version)
    → IsSupported version
    → supported_version (version_code version) ≡ ok version
unfolding supported_version
supported_version-version_code version h = ground arith

version_code-lt : (version : Version) → version_code version < 256 ^ 2
version_code-lt version = ground arith

lift-supported_version :
    (code : ℕ) (remaining rest : Bytes) (version : Version)
    → lift (supported_version code) remaining ≡ ok (rest, version)
    → (remaining ≡ rest) × (code ≡ version_code version) × IsSupported version
unfolding supported_version
lift-supported_version code remaining rest version h =
    (ground arith, ground arith, λ e. ground arith)

pub no_more_data_lem : no_more_data [] ≡ ok ([], tt)
no_more_data_lem = refl

module _ ⦃lib : RawData⦄ where
  open lib use {int_bytes, get_int, length-int_bytes, get_int-int_bytes, get_int_sound}

  -- The header of a file of `size` bytes.
  abbrev pub header_bytes : Version → ℕ → Bytes
  header_bytes version size = ints_bytes ((4, size) ∷ (2, version_code version) ∷ [])

  pub length-header_bytes : (version : Version) (size : ℕ) → length (header_bytes version size) ≡ 6
  length-header_bytes version size = omega (
    arith,
    length-append (int_bytes 4 size) (int_bytes 2 (version_code version) ++ []),
    length-append (int_bytes 2 (version_code version)) [],
    length-int_bytes 4 size,
    length-int_bytes 2 (version_code version),
  )

  -- The header goes into the six bytes that were left for it.
  pub insert_header_lem :
      (version : Version) (payload : Bytes)
      → insert_header version (replicate header_size 0 ++ payload)
        ≡ ok (header_bytes version ((6 + length payload) % 2 ^ 32) ++ payload, tt)
  unfolding insert_header set_from
  insert_header_lem version payload =
      let whole : Bytes = replicate header_size 0 ++ payload in
      let size : length whole ≡ 6 + length payload = omega arith in
      rw
        (set_ints_lem ((4, length whole % 2 ^ 32) ∷ (2, version_code version) ∷ []) whole
          (omega arith))
        (rw size)

  pub decode_header_lem :
      (version : Version) (payload : Bytes)
      → IsSupported version
      → 6 + length payload < 2 ^ 32
      → decode_header (header_bytes version (6 + length payload) ++ payload) ≡ ok (payload, version)
  unfolding decode_header
  decode_header_lem version payload h fits =
      let size : length (header_bytes version (6 + length payload) ++ payload)
          ≡ 6 + length payload =
        omega (
          arith,
          length-append (header_bytes version (6 + length payload)) payload,
          length-header_bytes version (6 + length payload),
        ) in
      let small : version_code version < 256 ^ 2 = version_code-lt version in
      rw (size, le→leb 6 (6 + length payload) (omega arith), append_assoc)
        (rw (get_int-int_bytes 4 (6 + length payload) _ fits, ==_refl (6 + length payload))
          (rw (append_assoc, get_int-int_bytes 2 (version_code version) payload small)
            (rw (supported_version-version_code version h))))

  -- An accepted file begins with a header that holds its own length, which is below 2 ^ 32, and a
  -- supported version, and the decoder leaves what follows the header.
  decode_header_size :
      (raw_data rest : Bytes) (version : Version)
      → decode_header raw_data ≡ ok (rest, version)
      → (raw_data ≡ header_bytes version (length raw_data) ++ rest)
        × (length raw_data < 2 ^ 32)
        × IsSupported version
  unfolding decode_header
  decode_header_size raw_data rest version h =
      let (_, q) =
        check->>-eq-ok (leb header_size (length raw_data)) arinc_615a_exception _ raw_data h in
      let ((bs, size), u, v) = >>=-eq-ok (get_int 4) _ raw_data q in
      let (t, w) = check->>-eq-ok (size == length raw_data) arinc_615a_exception _ bs v in
      let ((cs, code), x, y) = >>=-eq-ok (get_int 2) _ bs w in
      let (e, bound) = get_int_sound 4 size raw_data bs u in
      let (e', _) = get_int_sound 2 code bs cs x in
      let (last, known, supported) = lift-supported_version code cs rest version y in
      let whole : size ≡ length raw_data = ==→eq size (length raw_data) t in
      (
        cc (append-nil (int_bytes 2 code), append_assoc (int_bytes 4 size) (int_bytes 2 code) cs),
        omega arith,
        supported,
      )

  front_lem :
      (xs rest : Bytes) (v : Version) (size : ℕ)
      → xs ≡ header_bytes v size ++ rest
      → take 4 xs ≡ int_bytes 4 size
  front_lem xs rest v size e =
      rw (e, append_assoc) (take-append (int_bytes 4 size) _ 4 (length-int_bytes 4 size))

  same_number : (m n : ℕ) → m < 2 ^ 32 → n < 2 ^ 32 → int_bytes 4 m ≡ int_bytes 4 n → m ≡ n
  same_number m n hm hn e =
      let p = get_int-int_bytes 4 m [] hm in let q = get_int-int_bytes 4 n [] hn in cc

  -- Two accepted files that begin with the same size field have the same size: nothing can be cut
  -- off or added behind.
  decode_header_same_size :
      (xs ys xs' ys' : Bytes) (v w : Version)
      → decode_header xs ≡ ok (xs', v)
      → decode_header ys ≡ ok (ys', w)
      → take 4 xs ≡ take 4 ys
      → length xs ≡ length ys
  decode_header_same_size xs ys xs' ys' v w hx hy front =
      let (ex, bx, _) = decode_header_size xs xs' v hx in
      let (ey, by, _) = decode_header_size ys ys' w hy in
      same_number (length xs) (length ys) bx by
        (sym (front_lem xs xs' v (length xs) ex) ∙ front ∙ front_lem ys ys' w (length ys) ey)
