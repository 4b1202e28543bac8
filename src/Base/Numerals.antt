-- ===== src/Base/Numerals.antt =====
-- Numbers in text: `std::from_chars` for unsigned numbers, and what is read from printed numbers.
use arinc_615a_gui_tool_suit.Base.Tests.{leb, ltb, Bool-cases, if◌then◌else◌}
use arinc_615a_gui_tool_suit.Base.Lists.{All}
use arinc_615a_gui_tool_suit.Base.Exceptions.{Bytes}
use arinc_615a_gui_tool_suit.Base.Decimal.{decimal}
use Prim.Native.Nat.{ℕ, zero, suc, ◌+◌, ◌-◌, ◌*◌, ◌/◌, ◌%◌, ◌^◌, ◌≤◌, ◌<◌}
use mathlib.Core.Bool.{Bool, true, false, ◌&&◌}
use mathlib.Core.Option.{Option, none, some}
use mathlib.Core.Path.{◌≡◌, ◌∙◌}
use mathlib.Core.Logic.{inl, inr}
use mathlib.Core.List.{[], ◌∷◌, ◌++◌}
use native.Mathlib.Nat.{pow-suc}
use native.Mathlib.Omega.{arith}

-- The value of a digit in any base up to 36; 36 for every other character.
abbrev pub digit_value : ℕ → ℕ
digit_value c =
    if leb b'0' c && leb c b'9'
    then c - 48
    else if leb b'A' c && leb c b'Z'
    then c - 55
    else if leb b'a' c && leb c b'z'
    then c - 87
    else 36

-- The number that the leading digits make of `acc`.
abbrev pub read_base : ℕ → Bytes → ℕ → ℕ
read_base base [] acc = acc
read_base base (c ∷ text) acc =
    let rest = read_base base text (acc * base + digit_value c) in
    if ltb (digit_value c) base then rest else acc

abbrev starts_with_base : ℕ → Bytes → Bool
starts_with_base base [] = false
starts_with_base base (c ∷ text) = ltb (digit_value c) base

-- `std::from_chars( first, last, value, base )` for a value below `bound`: `none` where digits are
-- missing or the number does not fit; what follows the digits is ignored.
unfoldable pub from_chars : ℕ → ℕ → Bytes → Option ℕ
from_chars base bound text =
    if starts_with_base base text && ltb (read_base base text 0) bound
    then some (read_base base text 0)
    else none

abbrev IsDecimal : ℕ → Type 0
IsDecimal c = (48 ≤ c) × (c < 58)

digit-lt : (c : ℕ) → IsDecimal c → ltb (digit_value c) 10 ≡ true
digit-lt c h = ground (arith, h.0, h.1)

read_base-append :
    (text : Bytes) (d acc : ℕ)
    → All IsDecimal text
    → d < 10
    → read_base 10 (text ++ (48 + d) ∷ []) acc ≡ read_base 10 text acc * 10 + d
read_base-append [] d acc h hd = ground arith
read_base-append (c ∷ text) d acc h hd =
    rw (digit-lt c h.0) (read_base-append text d (acc * 10 + digit_value c) h.1 hd)

All-snoc :
    (text : Bytes) (c : ℕ) → All IsDecimal text → IsDecimal c → All IsDecimal (text ++ c ∷ [])
All-snoc [] c h hc = (hc, tt)
All-snoc (d ∷ text) c h hc = (h.0, All-snoc text c h.1 hc)

last-IsDecimal : (n : ℕ) → IsDecimal (48 + n % 10)
last-IsDecimal n = (omega arith, omega arith)

-- The two forms of a printed number.
decimal-short : (fuel n : ℕ) → ltb n 10 ≡ true → decimal (suc fuel) n ≡ (48 + n % 10) ∷ []
decimal-short fuel n e = rw e

decimal-long :
    (fuel n : ℕ)
    → ltb n 10 ≡ false
    → decimal (suc fuel) n ≡ decimal fuel (n / 10) ++ (48 + n % 10) ∷ []
decimal-long fuel n e = rw e

decimal-IsDecimal : (fuel n : ℕ) → All IsDecimal (decimal fuel n)
decimal-IsDecimal zero n = (last-IsDecimal n, tt)
decimal-IsDecimal (suc fuel) n = elim (Bool-cases (ltb n 10)) [
  | inl e ↦ rw (decimal-short fuel n e) (last-IsDecimal n, tt)
  | inr e ↦
      rw (decimal-long fuel n e)
        (All-snoc (decimal fuel (n / 10)) _ (decimal-IsDecimal fuel (n / 10)) (last-IsDecimal n))
]

read_base-digit : (d acc : ℕ) → d < 10 → read_base 10 ((48 + d) ∷ []) acc ≡ acc * 10 + d
read_base-digit d acc h = read_base-append [] d acc tt h

pub read_base-decimal : (fuel n : ℕ) → n < 10 ^ suc fuel → read_base 10 (decimal fuel n) 0 ≡ n
read_base-decimal zero n h = read_base-digit (n % 10) 0 (omega arith) ∙ omega arith
read_base-decimal (suc fuel) n h = elim (Bool-cases (ltb n 10)) [
  | inl e ↦
      let small : n < 10 = ground (arith, e) in
      rw (decimal-short fuel n e) (read_base-digit (n % 10) 0 (omega arith) ∙ omega arith)
  | inr e ↦
      let bound : n / 10 < 10 ^ suc fuel = omega (arith, pow-suc 10 (suc fuel)) in
      rw (decimal-long fuel n e) (
        read_base-append (decimal fuel (n / 10)) (n % 10) 0 (decimal-IsDecimal fuel (n / 10))
          (omega arith)
        ∙ rw (read_base-decimal fuel (n / 10) bound) (omega arith))
]

starts-append :
    (text : Bytes) (c : ℕ)
    → starts_with_base 10 text ≡ true
    → starts_with_base 10 (text ++ c ∷ []) ≡ true
starts-append [] c h = cc
starts-append (d ∷ text) c h = h

starts-decimal : (fuel n : ℕ) → starts_with_base 10 (decimal fuel n) ≡ true
starts-decimal zero n = digit-lt (48 + n % 10) (last-IsDecimal n)
starts-decimal (suc fuel) n = elim (Bool-cases (ltb n 10)) [
  | inl e ↦ rw (decimal-short fuel n e) (digit-lt (48 + n % 10) (last-IsDecimal n))
  | inr e ↦
      rw (decimal-long fuel n e)
        (starts-append (decimal fuel (n / 10)) (48 + n % 10) (starts-decimal fuel (n / 10)))
]

-- A printed number is read back.
pub from_chars-decimal :
    (fuel n bound : ℕ)
    → n < 10 ^ suc fuel
    → n < bound
    → from_chars 10 bound (decimal fuel n) ≡ some n
unfolding from_chars
from_chars-decimal fuel n bound h hb =
    let fits : ltb n bound ≡ true = ground arith in
    rw (starts-decimal fuel n, read_base-decimal fuel n h) (rw fits)
