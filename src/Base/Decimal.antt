-- ===== src/Base/Decimal.antt =====
-- Decimal numbers as the standard library prints and reads them.
use arinc_615a_gui_tool_suit.Base.Tests.{leb, ltb, ◌==◌, if◌then◌else◌}
use arinc_615a_gui_tool_suit.Base.Exceptions.{Bytes}
use Prim.Native.Nat.{ℕ, zero, suc, ◌+◌, ◌-◌, ◌*◌, ◌/◌, ◌%◌, ◌^◌}
use mathlib.Core.Bool.{Bool, false, ◌&&◌, ◌||◌}
use mathlib.Core.Option.{Option, none, some}
use mathlib.Core.List.{[], ◌∷◌, ◌++◌}

abbrev pub is_digit : ℕ → Bool
is_digit c = leb b'0' c && leb c b'9'

-- `std::format( "{}", n )`, for `n` of at most `suc fuel` digits.
abbrev pub decimal : ℕ → ℕ → Bytes
decimal zero n = (b'0' + n % 10) ∷ []
decimal (suc fuel) n =
    let high = decimal fuel (n / 10) in
    if ltb n 10 then (b'0' + n % 10) ∷ [] else high ++ (b'0' + n % 10) ∷ []

-- The number that the leading digits make of `acc`.
abbrev pub read_digits : Bytes → ℕ → ℕ
read_digits [] acc = acc
read_digits (c ∷ text) acc =
    let rest = read_digits text (acc * 10 + (c - b'0')) in if is_digit c then rest else acc

abbrev pub starts_with_digit : Bytes → Bool
starts_with_digit [] = false
starts_with_digit (c ∷ text) = is_digit c

abbrev pub skip_spaces : Bytes → Bytes
skip_spaces [] = []
skip_spaces (c ∷ text) =
    let rest = skip_spaces text in if (c == 32) || (leb 9 c && leb c 13) then rest else c ∷ text

-- `unsigned long` of 64 bits: `none` where the digits are missing or do not fit.
abbrev unsigned_digits : (ℕ → ℕ) → Bytes → Option ℕ
unsigned_digits sign text =
    let value = read_digits text 0 in
    if starts_with_digit text && ltb value (2 ^ 64) then some (sign value) else none

abbrev signed_digits : Bytes → Option ℕ
signed_digits [] = none
signed_digits (c ∷ text) =
    if c == b'-'
    then unsigned_digits (λ v. (2 ^ 64 - v) % 2 ^ 64) text
    else if c == b'+'
    then unsigned_digits (λ v. v) text
    else unsigned_digits (λ v. v) (c ∷ text)

-- `std::stoul`: spaces, a sign, digits; what follows them is ignored, and `none` is an exception.
abbrev pub stoul : Bytes → Option ℕ
stoul text = signed_digits (skip_spaces text)
