-- ===== src/Find/Packet/Scan.antt =====
-- The loop over the parameters reads what the encoder writes, and nothing else.
use arinc_615a_gui_tool_suit.Base.{
  ℕ, sym, invalid_find_packet, zero, suc, ◌≤◌, ◌<◌, ◌≡◌, refl, ap, ◌∙◌, inl, inr, List, [], ◌∷◌,
  ◌++◌, arith, Bytes, none, some, Option-cases, ok, err, length, take, drop, All, concat_map,
  length-append, length-drop, drop_past, take-append, append_assoc, append-nil,
}
use arinc_615a_gui_tool_suit.Files.Text.{find_null}
use arinc_615a_gui_tool_suit.Files.Text.RoundTrip.{IsText, find_null-append}
use arinc_615a_gui_tool_suit.Find.Packet.{string_terminator, scan}

-- A parameter and its terminator.
abbrev pub terminated : Bytes → Bytes
terminated parameter = parameter ++ string_terminator ∷ []

find_null_zero : (c : ℕ) (text : Bytes) → find_null (c ∷ text) ≡ some 0 → c ≡ 0
unfolding find_null
find_null_zero c text h = elim (Option-cases (find_null text)) [
  | inl e ↦ ground (arith, e)
  | inr (m, e) ↦ ground (arith, e)
]

find_null-suc :
    (c : ℕ) (text : Bytes) (n : ℕ)
    → find_null (c ∷ text) ≡ some (suc n)
    → (0 < c) × (find_null text ≡ some n)
unfolding find_null
find_null-suc c text n h = elim (Option-cases (find_null text)) [
  | inl e ↦ ground (arith, e)
  | inr (m, e) ↦ ground (arith, e)
]

-- A found NULL is the first one.
pub find_null_sound :
    (text : Bytes) (n : ℕ)
    → find_null text ≡ some n
    → (text ≡ take n text ++ 0 ∷ drop (suc n) text) × IsText (take n text) × (n < length text)
find_null_sound [] n h = unfold find_null in cc
find_null_sound (c ∷ text) zero h = (ap (λ d. d ∷ text) (find_null_zero c text h), tt, omega arith)
find_null_sound (c ∷ text) (suc n) h =
    let (pos, found) = find_null-suc c text n h in
    let (e, clean, bound) = find_null_sound text n found in
    (ap (λ t. c ∷ t) e, (pos, clean), omega arith)

pub scan_missing :
    (fuel c : ℕ) (text : Bytes) (ps : List Bytes)
    → find_null (c ∷ text) ≡ none
    → scan (suc fuel) (c ∷ text) ps ≡ err invalid_find_packet
unfolding scan
scan_missing fuel c text ps e = rw (e, scan)

pub scan_found :
    (fuel c : ℕ) (text : Bytes) (ps : List Bytes) (n : ℕ)
    → find_null (c ∷ text) ≡ some n
    → scan (suc fuel) (c ∷ text) ps ≡ scan fuel (drop n text) (ps ++ (take n (c ∷ text) ∷ []))
unfolding scan
scan_found fuel c text ps n e = rw (e, scan)

-- One round of the loop, on a terminated string.
scan_step :
    (fuel : ℕ) (parameter rest : Bytes) (parameters : List Bytes)
    → IsText parameter
    → scan (suc fuel) (terminated parameter ++ rest) parameters
      ≡ scan fuel rest (parameters ++ (parameter ∷ []))
unfolding scan
scan_step fuel [] rest parameters h = unfold find_null in refl
scan_step fuel (c ∷ p) rest parameters h = rw (append_assoc p (zero ∷ []) rest) (
    rw
      (scan_found fuel c (p ++ 0 ∷ rest) parameters (suc (length p))
        (find_null-append (c ∷ p) rest h))
      (rw (take-append p (0 ∷ rest) (length p) refl, drop_past p rest 0)))

-- Every list of parameters is read back, whatever fuel there is beyond the number of characters.
pub scan-concat_map :
    (qs : List Bytes) (fuel : ℕ) (ps : List Bytes)
    → All IsText qs
    → length (concat_map terminated qs) ≤ fuel
    → scan fuel (concat_map terminated qs) ps ≡ ok (ps ++ qs)
scan-concat_map [] zero ps h enough = unfold scan in rw append-nil
scan-concat_map [] (suc fuel) ps h enough = unfold scan in rw append-nil
scan-concat_map (q ∷ qs) zero ps h enough = absurd (
    omega (
      arith,
      length-append (terminated q) (concat_map terminated qs),
      length-append q (string_terminator ∷ []),
    ))
scan-concat_map (q ∷ qs) (suc fuel) ps h enough =
    let shorter : length (concat_map terminated qs) ≤ fuel = omega (
      arith,
      length-append (terminated q) (concat_map terminated qs),
      length-append q (string_terminator ∷ []),
    ) in
    scan_step fuel q (concat_map terminated qs) ps h.0
    ∙ scan-concat_map qs fuel (ps ++ (q ∷ [])) h.1 shorter
    ∙ ap ok (append_assoc ps (q ∷ []) qs)

-- What the loop accepts is the text of the parameters that it finds.
pub scan_sound :
    (fuel : ℕ) (text : Bytes) (ps rs : List Bytes)
    → length text ≤ fuel
    → scan fuel text ps ≡ ok rs
    → (qs : List Bytes) × (rs ≡ ps ++ qs) × (text ≡ concat_map terminated qs) × All IsText qs
scan_sound zero [] ps rs enough h = ([], unfold scan in rw append-nil (cc), refl, tt)
scan_sound zero (c ∷ text) ps rs enough h = absurd (omega arith)
scan_sound (suc fuel) [] ps rs enough h = ([], unfold scan in rw append-nil (cc), refl, tt)
scan_sound (suc fuel) (c ∷ text) ps rs enough h = elim (Option-cases (find_null (c ∷ text))) [
  | inl e ↦ cc (scan_missing fuel c text ps e)
  | inr (n, e) ↦
      let (whole, clean, bound) = find_null_sound (c ∷ text) n e in
      let q = take n (c ∷ text) in
      let (qs, found, rest, all_clean) =
        scan_sound fuel (drop n text) (ps ++ (q ∷ [])) rs (omega (arith, length-drop n text))
          (sym (scan_found fuel c text ps n e) ∙ h) in
      (
        q ∷ qs,
        found ∙ append_assoc ps (q ∷ []) qs,
        whole
            ∙ ap (λ t. q ++ 0 ∷ t) rest
            ∙ sym (append_assoc q (zero ∷ []) (concat_map terminated qs)),
        (clean, all_clean),
      )
]
