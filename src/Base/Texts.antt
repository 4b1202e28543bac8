-- ===== src/Base/Texts.antt =====
-- Texts: the bytes of a literal, and equality as a test.
use Prim.Native.Char.{code}
use Prim.Native.String.{String}
use arinc_615a_gui_tool_suit.Base.Tests.{◌==◌, ==_refl}
use arinc_615a_gui_tool_suit.Base.Exceptions.{Bytes}
use mathlib.Core.Bool.{Bool, true, false, ◌&&◌}
use mathlib.Core.List.{[], ◌∷◌}
use mathlib.Core.Path.{◌≡◌, refl}
use native.Mathlib.Omega.{arith}

-- The bytes of an ASCII text.
abbrev pub codes : String → Bytes
codes String.[] = []
codes (String.◌∷◌ c s) = code c ∷ codes s

abbrev pub same_text : Bytes → Bytes → Bool
same_text [] [] = true
same_text [] (d ∷ other) = false
same_text (c ∷ text) [] = false
same_text (c ∷ text) (d ∷ other) = (c == d) && same_text text other

pub same_text_sound : (text other : Bytes) → same_text text other ≡ true → text ≡ other
same_text_sound [] [] h = refl
same_text_sound [] (d ∷ other) h = cc
same_text_sound (c ∷ text) [] h = cc
same_text_sound (c ∷ text) (d ∷ other) h = ground (arith, same_text_sound text other)

pub same_text_refl : (text : Bytes) → same_text text text ≡ true
same_text_refl [] = refl
same_text_refl (c ∷ text) = rw (==_refl c) (same_text_refl text)
