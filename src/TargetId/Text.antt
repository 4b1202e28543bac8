-- ===== src/TargetId/Text.antt =====
-- Which texts are target identifiers.
use arinc_615a_gui_tool_suit.Base.{ℕ, ◌≡◌, ◌≢◌, refl, [], ◌∷◌, ◌++◌, arith, Bytes, true, false}
use arinc_615a_gui_tool_suit.TargetId.{
  TargetId, split_target_id, is_alnum, all_of, is_compliant, is_target_id, target_id_of, to_string,
  is_valid, is_thw_id,
}
use arinc_615a_gui_tool_suit.Separator.{IsPart, split_at-append, split_at_sound}
use mathlib.Core.Logic.{◌↔◌}

differ : (separator c : ℕ) → is_alnum separator ≡ false → is_alnum c ≡ true → c ≡ separator → ⊥
differ separator c out h e = cc (rw e at h)

-- Letters and digits, of which no separator is one.
alnum-IsPart :
    (separator : ℕ) (text : Bytes)
    → is_alnum separator ≡ false
    → all_of is_alnum text ≡ true
    → IsPart separator text
alnum-IsPart separator [] out h = tt
alnum-IsPart separator (c ∷ text) out h =
    (λ e. differ separator c out (ground arith) e, alnum-IsPart separator text out (ground arith))

compliant-alnum :
    (text : Bytes) (min_length max_length : ℕ)
    → is_compliant text min_length max_length ≡ true
    → all_of is_alnum text ≡ true
unfolding is_compliant
compliant-alnum text min_length max_length h = ground arith

split-to_string :
    (t : TargetId) → IsPart b'_' t.thw_id → split_target_id (to_string t) ≡ (t.thw_id, t.position)
split-to_string t h = split_at-append b'_' t.thw_id t.position h

valid-IsPart : (t : TargetId) → is_valid t ≡ true → IsPart b'_' t.thw_id
valid-IsPart t h = alnum-IsPart b'_' t.thw_id refl (compliant-alnum t.thw_id 4 15 (ground arith))

thw_id-nonempty : (thw_id : Bytes) → is_compliant thw_id 4 15 ≡ true → thw_id ≢ []
unfolding is_compliant
thw_id-nonempty [] h e = ground arith
thw_id-nonempty (c ∷ thw_id) h e = cc

-- A text with a part before the underscore is the text of its parts.
to_string-split :
    (text : Bytes)
    → is_thw_id (split_target_id text).0 ≡ true
    → text ≡ to_string (target_id_of text)
unfolding target_id_of
to_string-split text h = split_at_sound b'_' text (thw_id-nonempty _ h)

-- A valid target identifier is read back from its text.
pub target_id_of-to_string : (t : TargetId) → is_valid t ≡ true → target_id_of (to_string t) ≡ t
unfolding target_id_of
target_id_of-to_string t h = rw (split-to_string t (valid-IsPart t h))

-- A text passes the test for target identifiers exactly if it is the text of a valid one.
pub is_target_id_iff :
    (text : Bytes)
    → (is_target_id text ≡ true) ↔ ((t : TargetId) × (is_valid t ≡ true) × (text ≡ to_string t))
unfolding is_target_id
is_target_id_iff text = (
  λ h. (target_id_of text, unfold target_id_of in h, to_string-split text (ground arith)),
  λ (t, valid, e). rw e (rw (split-to_string t (valid-IsPart t valid)) valid),
)

IsPart-append :
    (text other : Bytes) → IsPart b'.' text → IsPart b'.' other → IsPart b'.' (text ++ b'_' ∷ other)
IsPart-append [] other h k = (λ e. ground arith, k)
IsPart-append (c ∷ text) other h k = (h.0, IsPart-append text other h.1 k)

-- There is no point in the text of a valid target identifier.
pub to_string-IsPart : (t : TargetId) → is_valid t ≡ true → IsPart b'.' (to_string t)
to_string-IsPart t h =
    IsPart-append t.thw_id t.position
      (alnum-IsPart b'.' t.thw_id refl (compliant-alnum t.thw_id 4 15 (ground arith)))
      (alnum-IsPart b'.' t.position refl (compliant-alnum t.position 0 8 (ground arith)))
