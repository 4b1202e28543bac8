-- ===== src/Find/Packet/Ordinary.antt =====
-- Decoding of any datagram: a packet, or the exception of an invalid packet, and no other.
use arinc_615a_gui_tool_suit.Base.{
  ℕ, suc, ◌-◌, ◌≤◌, ◌<◌, ◌≡◌, ◌⊎◌, refl, ◌∙◌, inl, inr, List, [], ◌∷◌, ◌++◌, arith, Bytes, Bool,
  true, false, ltb, Option-cases, Result, Error, ok, err, invalid_find_packet, continue, length,
  All, take, drop, zero, ◌>>=◌, check, lift, length-take,
}
use arinc_615a_gui_tool_suit.RawData.{RawData, IsByte}
use arinc_615a_gui_tool_suit.Files.Text.{find_null}
use arinc_615a_gui_tool_suit.Find.Packet.{
  Opcode, information_request, information_answer, invalid, Packet, decode, scan, ends_with,
  packet_terminator, drop_back, known_opcode, checked_opcode, all_text,
}
use arinc_615a_gui_tool_suit.Find.Packet.Scan.{scan_missing, scan_found}
use arinc_615a_gui_tool_suit.Find.Packet.RoundTrip.{all_text_lem, read_parameters}

-- A result with a value, or the exception of an invalid packet.
abbrev pub IsOrdinary : {A : Type 0} → Result A → Type 0
IsOrdinary {A} r = ((a : A) × (r ≡ ok a)) ⊎ (r ≡ err invalid_find_packet)

take-IsByte : (n : ℕ) (xs : Bytes) → All IsByte xs → All IsByte (take n xs)
take-IsByte zero xs h = tt
take-IsByte (suc n) [] h = tt
take-IsByte (suc n) (x ∷ xs) h = (h.0, take-IsByte n xs h.1)

scan-IsOrdinary : (fuel : ℕ) (text : Bytes) (ps : List Bytes) → IsOrdinary (scan fuel text ps)
scan-IsOrdinary zero text ps = inl (ps, unfold scan in refl)
scan-IsOrdinary (suc fuel) [] ps = inl (ps, unfold scan in refl)
scan-IsOrdinary (suc fuel) (c ∷ text) ps = elim (Option-cases (find_null (c ∷ text))) [
  | inl e ↦ inr (rw (scan_missing fuel c text ps e))
  | inr (n, e) ↦
      rw (scan_found fuel c text ps n e)
        (scan-IsOrdinary fuel (drop n text) (ps ++ (take n (c ∷ text) ∷ [])))
]

continue-IsOrdinary :
    {A B : Type 0} (r : Result A) (f : A → Result B)
    → IsOrdinary r
    → ((a : A) → r ≡ ok a → IsOrdinary (f a))
    → IsOrdinary (continue r f)
continue-IsOrdinary (ok a) f h k = k a refl
continue-IsOrdinary (err e) f (inl (a, h)) k = cc
continue-IsOrdinary (err e) f (inr h) k = inr (cc)

check-IsOrdinary :
    (test : Bool) (buffer : Bytes) → IsOrdinary (check test invalid_find_packet buffer)
check-IsOrdinary true buffer = inl ((buffer, tt), refl)
check-IsOrdinary false buffer = inr refl

check-eq-ok :
    (test : Bool) (e : Error) (buffer : Bytes) (p : Bytes × Unit {0})
    → check test e buffer ≡ ok p
    → (test ≡ true) × (p.0 ≡ buffer)
check-eq-ok true e buffer p h = (refl, ground arith)
check-eq-ok false e buffer p h = cc

checked_opcode-IsOrdinary : (opcode : Opcode) → IsOrdinary (checked_opcode opcode)
checked_opcode-IsOrdinary information_request = inl (information_request, refl)
checked_opcode-IsOrdinary information_answer = inl (information_answer, refl)
checked_opcode-IsOrdinary invalid = inr refl

module _ ⦃lib : RawData⦄ where
  open lib use {get_int, get_int_reads}

  pure-IsOrdinary : {A : Type 0} (a : A) → IsOrdinary (ok a)
  pure-IsOrdinary a = inl (a, refl)

  -- What follows the opcode.
  parameters-IsOrdinary :
      (opcode : Opcode) (text : Bytes) → IsOrdinary (read_parameters opcode text)
  parameters-IsOrdinary opcode text =
      continue-IsOrdinary (all_text text) _ (inl (([], text), all_text_lem text)) λ p _.
        continue-IsOrdinary (lift (scan (length p.1) p.1 []) p.0) _
          (continue-IsOrdinary (scan (length p.1) p.1 []) _ (scan-IsOrdinary (length p.1) p.1 [])
            (λ qs _. pure-IsOrdinary (p.0, qs)))
          λ q _.
            continue-IsOrdinary (check (ltb 0 (length q.1)) invalid_find_packet q.0) _
              (check-IsOrdinary (ltb 0 (length q.1)) q.0) (λ r _. pure-IsOrdinary (r.0, _))

  opcode-IsOrdinary :
      (front : Bytes)
      → All IsByte front
      → 2 ≤ length front
      → IsOrdinary (
          (do
            int_opcode ← get_int 2
            opcode ← lift (checked_opcode (known_opcode int_opcode))
            read_parameters opcode)
            front)
  opcode-IsOrdinary front bytes enough =
      let (v, e) = get_int_reads 2 front bytes enough in
      continue-IsOrdinary (get_int 2 front) _ (inl ((drop 2 front, v), e)) λ p _.
        continue-IsOrdinary (lift (checked_opcode (known_opcode p.1)) p.0) _
          (continue-IsOrdinary (checked_opcode (known_opcode p.1)) _
            (checked_opcode-IsOrdinary (known_opcode p.1))
            (λ opcode _. pure-IsOrdinary (p.0, opcode)))
          (λ q _. parameters-IsOrdinary q.1 q.0)

  -- Of the bytes of any datagram, decoding makes a packet or the exception of an invalid packet.
  pub decode-IsOrdinary :
      (raw_packet : Bytes)
      → All IsByte raw_packet
      → ((p : Packet) × (decode raw_packet ≡ ok p)) ⊎ (decode raw_packet ≡ err invalid_find_packet)
  unfolding decode drop_back
  decode-IsOrdinary raw_packet bytes =
      continue-IsOrdinary _ _
        (continue-IsOrdinary (check (ltb 2 (length raw_packet)) invalid_find_packet raw_packet) _
          (check-IsOrdinary (ltb 2 (length raw_packet)) raw_packet)
          λ p long.
            continue-IsOrdinary
              (check (ends_with packet_terminator raw_packet) invalid_find_packet p.0) _
              (check-IsOrdinary (ends_with packet_terminator raw_packet) p.0)
              (λ q ends.
                let (some_bytes, same) =
                  check-eq-ok (ltb 2 (length raw_packet)) invalid_find_packet raw_packet p long in
                let (_, same') =
                  check-eq-ok (ends_with packet_terminator raw_packet) invalid_find_packet p.0 q
                    ends in
                let whole : q.0 ≡ raw_packet = same' ∙ same in
                let size : 2 < length raw_packet = ground (arith, some_bytes) in
                rw whole (
                  opcode-IsOrdinary (take (length raw_packet - 1) raw_packet)
                    (take-IsByte (length raw_packet - 1) raw_packet bytes)
                    (omega (arith, length-take (length raw_packet - 1) raw_packet)))))
        (λ p _. pure-IsOrdinary p.1)
