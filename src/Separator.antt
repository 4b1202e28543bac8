-- ===== src/Separator.antt =====
-- Texts in two parts around a separator, as in lib/arinc_615a/TargetId.cpp (`splitTargetId`) and
-- lib/arinc_615a/files/ProtocolFilename.cpp (`split`).
use arinc_615a_gui_tool_suit.Base.{
  ℕ, zero, suc, ◌≡◌, ◌≢◌, refl, ap, inl, inr, [], ◌∷◌, ◌++◌, arith, Bytes, some, none, Option,
  Option-cases, length, take, drop, All, take-append, drop_past, ◌==◌, if◌then◌else◌,
}

-- `find( separator )`; `none` is `npos`.
unfoldable find_char : ℕ → Bytes → Option ℕ
find_char separator [] = none
find_char separator (c ∷ text) =
    let rest = find_char separator text in
    if c == separator then some 0 else elim rest [ none ↦ none | some n ↦ some (suc n) ]

-- The two parts around the place of the separator; none of it, two empty ones.
abbrev parts : Option ℕ → Bytes → Bytes × Bytes
parts none text = ([], [])
parts (some n) text = (take n text, drop (suc n) text)

pub split_at : ℕ → Bytes → Bytes × Bytes
split_at separator text = parts (find_char separator text) text

-- No character is the separator.
abbrev pub IsPart : ℕ → Bytes → Type 0
IsPart separator text = All (λ c. c ≢ separator) text

find_char-append :
    (separator : ℕ) (text rest : Bytes)
    → IsPart separator text
    → find_char separator (text ++ separator ∷ rest) ≡ some (length text)
unfolding find_char
find_char-append separator [] rest h = ground arith
find_char-append separator (c ∷ text) rest h =
    rw (find_char-append separator text rest h.1) (ground (arith, h.0))

find_char_zero :
    (separator c : ℕ) (text : Bytes) → find_char separator (c ∷ text) ≡ some 0 → c ≡ separator
unfolding find_char
find_char_zero separator c text h = elim (Option-cases (find_char separator text)) [
  | inl e ↦ ground (arith, e)
  | inr (m, e) ↦ ground (arith, e)
]

find_char-suc :
    (separator c : ℕ) (text : Bytes) (n : ℕ)
    → find_char separator (c ∷ text) ≡ some (suc n)
    → find_char separator text ≡ some n
unfolding find_char
find_char-suc separator c text n h = elim (Option-cases (find_char separator text)) [
  | inl e ↦ ground (arith, e)
  | inr (m, e) ↦ ground (arith, e)
]

find_char_sound :
    (separator : ℕ) (text : Bytes) (n : ℕ)
    → find_char separator text ≡ some n
    → text ≡ take n text ++ separator ∷ drop (suc n) text
find_char_sound separator [] n h = unfold find_char in cc
find_char_sound separator (c ∷ text) zero h = ap (λ d. d ∷ text) (find_char_zero separator c text h)
find_char_sound separator (c ∷ text) (suc n) h =
    ap (λ t. c ∷ t) (find_char_sound separator text n (find_char-suc separator c text n h))

-- A front without the separator is split off.
pub split_at-append :
    (separator : ℕ) (text rest : Bytes)
    → IsPart separator text
    → split_at separator (text ++ separator ∷ rest) ≡ (text, rest)
unfolding split_at
split_at-append separator text rest h =
    rw (find_char-append separator text rest h)
      (rw (take-append text (separator ∷ rest) (length text) refl, drop_past text rest separator))

-- A text whose first part is not empty is made of its parts.
pub split_at_sound :
    (separator : ℕ) (text : Bytes)
    → (split_at separator text).0 ≢ []
    → text ≡ (split_at separator text).0 ++ separator ∷ (split_at separator text).1
unfolding split_at
split_at_sound separator text h = elim (Option-cases (find_char separator text)) [
  | inl e ↦ absurd (h (rw e))
  | inr (n, e) ↦ rw e (find_char_sound separator text n e)
]
