-- ===== src/Files/ProtocolFilename/Text.antt =====
-- Which texts are names of protocol files.
use arinc_615a_gui_tool_suit.Base.{
  ℕ, ◌≡◌, ◌≢◌, refl, sym, ap, ◌∙◌, inl, inr, List, [], ◌∷◌, ◌++◌, arith, Bytes, true, not, All,
  Bool-cases,
}
use arinc_615a_gui_tool_suit.Base.{same_text, same_text_sound}
use arinc_615a_gui_tool_suit.Separator.{split_at-append, split_at_sound}
use arinc_615a_gui_tool_suit.TargetId.{TargetId, is_valid, to_string}
use arinc_615a_gui_tool_suit.TargetId.Text.{
  target_id_of-to_string, is_target_id_iff, to_string-IsPart,
}
use arinc_615a_gui_tool_suit.Files.ProtocolFilename.{
  FileType, invalid_type, same_type, extension_type_info, find_extension, extension_of, file_type,
  split, is_protocol_filename, ProtocolFilename, filename_of, text_of, is_named,
}
use mathlib.Core.Logic.{◌↔◌}

-- Every file type but the invalid one is found by its own extension.
file_type-extension_of :
    (type : FileType) → type ≢ invalid_type → file_type (extension_of type) ≡ type
unfolding file_type extension_of
file_type-extension_of invalid_type h = absurd (h refl)
file_type-extension_of _ h = refl

-- What the search finds is an element of the index.
find_extension_sound :
    (P : Bytes → FileType → Type 0) (index : List (Bytes × FileType)) (extension : Bytes)
    → All (λ element. P element.0 element.1) index
    → find_extension index extension ≢ invalid_type
    → P extension (find_extension index extension)
find_extension_sound P [] extension all h = absurd (h refl)
find_extension_sound P (element ∷ index) extension all h =
    elim (Bool-cases (same_text element.0 extension)) [
      | inl e ↦ rw e (rw (same_text_sound element.0 extension e) at all.0)
      | inr e ↦ rw e (find_extension_sound P index extension all.1 (rw e at h))
    ]

table : All (λ element. element.0 ≡ extension_of element.1) extension_type_info
unfolding extension_of
table = (
  refl,
  (refl, (refl, (refl, (refl, (refl, (refl, (refl, (refl, (refl, (refl, (refl, tt))))))))))),
)

extension_of-file_type :
    (extension : Bytes)
    → file_type extension ≢ invalid_type
    → extension ≡ extension_of (file_type extension)
unfolding file_type
extension_of-file_type extension h =
    find_extension_sound (λ e t. e ≡ extension_of t) extension_type_info extension table h

valid_type : (type : FileType) → not (same_type type invalid_type) ≡ true → type ≢ invalid_type
valid_type type h e = cc (rw e at h)

-- What `is_named` tests.
is_named-parts :
    (f : ProtocolFilename)
    → is_named f ≡ true
    → (is_valid f.target_id ≡ true) × (f.type ≢ invalid_type)
is_named-parts f h = (ground arith, valid_type f.type (ground arith))

split-text_of :
    (f : ProtocolFilename)
    → is_valid f.target_id ≡ true
    → split (text_of f) ≡ (to_string f.target_id, extension_of f.type)
split-text_of f valid =
    split_at-append b'.' (to_string f.target_id) (extension_of f.type)
      (to_string-IsPart f.target_id valid)

-- A valid name of a protocol file is read back from its text.
pub filename_of-text_of : (f : ProtocolFilename) → is_named f ≡ true → filename_of (text_of f) ≡ f
unfolding filename_of
filename_of-text_of f h =
    let (valid, known) = is_named-parts f h in
    rw (split-text_of f valid)
      (rw (target_id_of-to_string f.target_id valid, file_type-extension_of f.type known))

same_type_other : (type : FileType) → type ≢ invalid_type → not (same_type type invalid_type) ≡ true
same_type_other type h = ground (arith, h)

append-nonempty : (xs ys : Bytes) (c : ℕ) → xs ++ c ∷ ys ≢ []
append-nonempty [] ys c h = cc
append-nonempty (x ∷ xs) ys c h = cc

-- A text that passes the test is the text of what is read from it.
named_text :
    (text : Bytes) (t : TargetId)
    → (split text).0 ≡ to_string t
    → file_type (split text).1 ≢ invalid_type
    → text ≡ text_of (record { target_id = t; type = file_type (split text).1 })
named_text text t e known =
    split_at_sound b'.' text (λ empty. append-nonempty t.thw_id t.position b'_' (sym e ∙ empty))
    ∙ ap (λ front. front ++ b'.' ∷ (split text).1) e
    ∙ ap (λ extension. to_string t ++ b'.' ∷ extension)
        (extension_of-file_type (split text).1 known)

-- A text passes the test for names of protocol files exactly if it is the text of a valid name.
pub is_protocol_filename_iff :
    (text : Bytes)
    → (is_protocol_filename text ≡ true)
      ↔ ((f : ProtocolFilename) × (is_named f ≡ true) × (text ≡ text_of f))
unfolding is_protocol_filename
is_protocol_filename_iff text = (
  λ h.
      let known = valid_type (file_type (split text).1) (ground arith) in
      let (t, valid, e) = (is_target_id_iff (split text).0).0 (ground arith) in
      let other = same_type_other (file_type (split text).1) known in
      (
        record { target_id = t; type = file_type (split text).1 },
        ground (arith, valid, other),
        named_text text t e known,
      ),
  λ (f, named, e).
      let (valid, known) = is_named-parts f named in
      let target = (is_target_id_iff (to_string f.target_id)).1 (f.target_id, valid, refl) in
      rw (e, split-text_of f valid)
        (rw (target, file_type-extension_of f.type known) (same_type_other f.type known)),
)
