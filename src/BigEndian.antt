-- ===== src/BigEndian.antt =====
-- The raw data functions by big-endian numbers, as the unit tests of the protocol files show them
-- (lib/arinc_615a/files/test): the interface `RawData` can be met.
use arinc_615a_gui_tool_suit.Base.{
  ℕ, zero, suc, ◌+◌, ◌*◌, ◌/◌, ◌%◌, ◌^◌, ◌≤◌, ◌<◌, ◌≡◌, refl, ap, ◌∙◌, inl, inr, [], ◌∷◌, ◌++◌,
  arith, Bytes, Result, ok, err, helper_exception, Coder, length, take, drop, ltb, leb, le→leb,
  Bool-cases, if◌then◌else◌, All, true, length-append, append_assoc,
}
use arinc_615a_gui_tool_suit.RawData.{RawData, IsByte}
use native.Mathlib.Nat.{pow-suc}

abbrev pub int_bytes : ℕ → ℕ → Bytes
int_bytes zero v = []
int_bytes (suc w) v = int_bytes w (v / 256) ++ (v % 256) ∷ []

-- The number that `w` more bytes make of `acc`; a byte is a number below 256.
abbrev take_int : ℕ → ℕ → Coder ℕ
take_int zero acc span = ok (span, acc)
take_int (suc w) acc [] = err helper_exception
take_int (suc w) acc (b ∷ span) =
    if ltb b 256 then take_int w (acc * 256 + b) span else err helper_exception

abbrev get_int : ℕ → Coder ℕ
get_int w = take_int w 0

abbrev set_int : ℕ → ℕ → Bytes → Bytes
set_int w v span = int_bytes w v ++ drop w span

abbrev set_string : Bytes → Bytes → Bytes
set_string text span = text ++ drop (length text) span

abbrev get_string : ℕ → Coder Bytes
get_string n span =
    if leb n (length span) then ok (drop n span, take n span) else err helper_exception

abbrev safe_cast : ℕ → ℕ → Result ℕ
safe_cast w v = if leb (suc v) (256 ^ w) then ok v else err helper_exception

pub length-int_bytes : (w v : ℕ) → length (int_bytes w v) ≡ w
length-int_bytes zero v = refl
length-int_bytes (suc w) v =
    omega
      (arith, length-append (int_bytes w (v / 256)) ((v % 256) ∷ []), length-int_bytes w (v / 256))

-- Enough bytes are a number.
pub take_int_reads :
    (w acc : ℕ) (span : Bytes)
    → All IsByte span
    → w ≤ length span
    → (v : ℕ) × (take_int w acc span ≡ ok (drop w span, v))
take_int_reads zero acc span h enough = (acc, refl)
take_int_reads (suc w) acc [] h enough = absurd (omega arith)
take_int_reads (suc w) acc (b ∷ span) h enough =
    let (v, e) = take_int_reads w (acc * 256 + b) span h.1 (omega arith) in
    let byte : ltb b 256 ≡ true = ground (arith, h.0) in (v, rw byte e)

pub get_string_lem :
    (n : ℕ) (span : Bytes) → n ≤ length span → get_string n span ≡ ok (drop n span, take n span)
get_string_lem n span h = rw (le→leb n (length span) h)

pub safe_cast_lem : (w v : ℕ) → v < 256 ^ w → safe_cast w v ≡ ok v
safe_cast_lem w v h = rw (le→leb (suc v) (256 ^ w) h)

-- One more byte behind the number that was read.
take_int-suc :
    (w acc : ℕ) (span rest : Bytes) (a b : ℕ)
    → take_int w acc span ≡ ok (b ∷ rest, a)
    → b < 256
    → take_int (suc w) acc span ≡ ok (rest, a * 256 + b)
take_int-suc zero acc span rest a b h hb = ground arith
take_int-suc (suc w) acc [] rest a b h hb = cc
take_int-suc (suc w) acc (c ∷ span) rest a b h hb =
    ground (arith, take_int-suc w (acc * 256 + c) span rest a b)

take_int_last :
    (w acc : ℕ) (span rest : Bytes) (v : ℕ)
    → take_int (suc w) acc span ≡ ok (rest, v)
    → (a : ℕ) × (b : ℕ) × (take_int w acc span ≡ ok (b ∷ rest, a)) × (b < 256) × (v ≡ a * 256 + b)
take_int_last zero acc [] rest v h = cc
take_int_last zero acc (c ∷ span) rest v h = (acc, c, ground arith, ground arith, ground arith)
take_int_last (suc w) acc [] rest v h = cc
take_int_last (suc w) acc (c ∷ span) rest v h = elim (Bool-cases (ltb c 256)) [
  | inl e ↦
      let (a, b, p, q, r) = take_int_last w (acc * 256 + c) span rest v (rw e at h) in
      (a, b, rw e p, q, r)
  | inr e ↦ cc (rw e at h)
]

pub get_int-int_bytes :
    (w v : ℕ) (rest : Bytes) → v < 256 ^ w → get_int w (int_bytes w v ++ rest) ≡ ok (rest, v)
get_int-int_bytes zero v rest h = ground arith
get_int-int_bytes (suc w) v rest h =
    let bound : v / 256 < 256 ^ w = omega (arith, pow-suc 256 w) in
    let high = get_int-int_bytes w (v / 256) ((v % 256) ∷ rest) bound in
    rw append_assoc (
      take_int-suc w 0 _ rest (v / 256) (v % 256) high (omega arith)
      ∙ ap (λ n. ok (rest, n)) (omega arith))

pub get_int_sound :
    (w v : ℕ) (span rest : Bytes)
    → get_int w span ≡ ok (rest, v)
    → (span ≡ int_bytes w v ++ rest) × (v < 256 ^ w)
get_int_sound zero v span rest h = (ground arith, ground arith)
get_int_sound (suc w) v span rest h =
    let (a, b, p, q, r) = take_int_last w 0 span rest v h in
    let (e, bound) = get_int_sound w a span (b ∷ rest) p in
    let high : v / 256 ≡ a = omega arith in
    let low : v % 256 ≡ b = omega arith in
    (rw (high, low, append_assoc) e, omega (arith, pow-suc 256 w))

-- The functions with their laws.
instance abbrev pub big_endian : RawData
big_endian = record {
  int_bytes = int_bytes;
  set_int = set_int;
  get_int = get_int;
  set_string = set_string;
  get_string = get_string;
  safe_cast = safe_cast;
  length-int_bytes = length-int_bytes;
  set_int_lem = λ w v span h. refl;
  get_int-int_bytes = get_int-int_bytes;
  get_int_sound = get_int_sound;
  get_int_reads = λ w. take_int_reads w 0;
  set_string_lem = λ text span h. refl;
  get_string_lem = get_string_lem;
  safe_cast_lem = safe_cast_lem;
}
