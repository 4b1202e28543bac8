-- ===== src/Tftp/Options/RoundTrip.antt =====
-- The options that one side sends are those that the other side reads.
use arinc_615a_gui_tool_suit.Base.{
  ℕ, ◌<◌, ◌^◌, ◌≡◌, refl, sym, ◌∙◌, ap, Bool, true, false, not, inl, inr, Bool-cases, Option, none,
  some, [], ◌∷◌, ◌++◌, Bytes, append-nil, decimal, if◌then◌else◌,
}
use arinc_615a_gui_tool_suit.Tftp.Options.{
  CheckValueType, not_used, crc8, crc16, crc32, md5, sha1, sha256, sha512, crc64, is_not_used,
  CheckValues, Arinc615aOptions, port_name, part_number_name, checksum_name, Options, extract,
  try_emplace, port_and_part_number, NumberReader, options_of, additional_options, add_check_value,
  find_check_value, checksum_option, part_number_of, read_options, handle_option_negotiation,
  request_options,
}
use arinc_615a_gui_tool_suit.Tftp.Options.Names.{
  port-checksum, part_number-checksum, checksum-port, checksum-part_number,
}

-- What the code relies on about check values: the one of no type is `NoCheckValue`, and any other is
-- valid, and read back from its type and its text.
pub record AreReadable {C : Type 0} (values : CheckValues C) : Type 0 where
  pub unused : (c : C) → is_not_used (values.type c) ≡ true → c ≡ values.no_check_value
  pub no_type : is_not_used (values.type values.no_check_value) ≡ true
  pub same_refl : values.same values.no_check_value values.no_check_value ≡ true
  pub different :
      (c : C) → is_not_used (values.type c) ≡ false → values.same c values.no_check_value ≡ false
  pub valid : (c : C) → is_not_used (values.type c) ≡ false → values.is_valid c ≡ true
  pub read_back :
      (c : C)
      → is_not_used (values.type c) ≡ false
      → values.make (values.type c) (values.text c) ≡ some c

-- What the code relies on about `Options_getOption< uint16_t >`.
pub record ReadsNumbers (get_option : NumberReader) : Type 0 where
  pub absent :
      (name : Bytes) (options : Options)
      → (extract name options).0 ≡ none
      → get_option name options ≡ ((true, none), options)
  pub present :
      (name : Bytes) (options : Options) (n : ℕ)
      → n < 2 ^ 16
      → (extract name options).0 ≡ some (decimal 4 n)
      → get_option name options ≡ ((true, some n), (extract name options).1)

abbrev pub IsPort : Option ℕ → Type 0
IsPort none = Unit {0}
IsPort (some n) = n < 2 ^ 16

abbrev port_part : Option ℕ → Options
port_part none = []
port_part (some p) = (port_name, decimal 4 p) ∷ []

abbrev part_number_part : Bytes → Options
part_number_part [] = []
part_number_part (c ∷ rest) = (part_number_name, c ∷ rest) ∷ []

front_lem :
    (port : Option ℕ) (part_number : Bytes)
    → port_and_part_number port part_number ≡ port_part port ++ part_number_part part_number
front_lem none [] = refl
front_lem none (c ∷ rest) = refl
front_lem (some p) [] = refl
front_lem (some p) (c ∷ rest) = refl

-- An option of a check value goes behind the other two.
emplace_last :
    (t : CheckValueType) (value : Bytes) (port : Option ℕ) (part_number : Bytes)
    → try_emplace (checksum_name t) value (port_part port ++ part_number_part part_number)
      ≡ (port_part port ++ part_number_part part_number) ++ (checksum_name t, value) ∷ []
emplace_last t value none [] = refl
emplace_last t value none (c ∷ rest) = rw (checksum-part_number t)
emplace_last t value (some p) [] = rw (checksum-port t)
emplace_last t value (some p) (c ∷ rest) = rw (checksum-port t, checksum-part_number t)

module _ {C : Type 0} (values : CheckValues C) where
  open values use {type, text, make, is_valid, no_check_value, same}

  -- The part of the check value.
  abbrev checksum_part : C → Options
  checksum_part c = if not (is_not_used (type c)) then (checksum_name (type c), text c) ∷ [] else []

  -- It holds neither a port nor a part number.
  checksum_part-port : (c : C) → extract port_name (checksum_part c) ≡ (none, checksum_part c)
  checksum_part-port c = elim (Bool-cases (is_not_used (type c))) [
    | inl e ↦ rw e
    | inr e ↦ rw (e, port-checksum (type c))
  ]

  checksum_part-part_number :
      (c : C) → extract part_number_name (checksum_part c) ≡ (none, checksum_part c)
  checksum_part-part_number c = elim (Bool-cases (is_not_used (type c))) [
    | inl e ↦ rw e
    | inr e ↦ rw (e, part_number-checksum (type c))
  ]

  no_part_number : (c : C) → part_number_of (checksum_part c) ≡ ([], checksum_part c)
  no_part_number c = rw (checksum_part-part_number c, part_number_of)

  additional_options_lem :
      (o : Arinc615aOptions C)
      → additional_options values o
        ≡ (port_part o.port ++ part_number_part o.part_number) ++ checksum_part o.checksum
  unfolding additional_options
  additional_options_lem o = elim (Bool-cases (is_not_used (type o.checksum))) [
    | inl e ↦ rw (e, front_lem o.port o.part_number) (sym (append-nil _))
    | inr e ↦ rw (e, front_lem o.port o.part_number) (emplace_last _ _ o.port o.part_number)
  ]

  module _ (readable : AreReadable values) where
    open readable use {unused, no_type, same_refl, different, valid, read_back}

    -- Both ways to write the options agree.
    pub options_of-additional_options :
        (o : Arinc615aOptions C) → options_of values o ≡ additional_options values o
    unfolding options_of additional_options
    options_of-additional_options o = elim (Bool-cases (is_not_used (type o.checksum))) [
      | inl e ↦ rw (e, unused o.checksum e, same_refl)
      | inr e ↦ rw (e, different o.checksum e)
    ]

    add-checksum :
        (c : C)
        → is_not_used (type c) ≡ false
        → add_check_value values (type c) no_check_value (text c) ≡ some c
    unfolding add_check_value
    add-checksum c e = rw (same_refl, read_back c e, valid c e)

    found_one :
        (t : CheckValueType) (c : C)
        → type c ≡ t
        → is_not_used t ≡ false
        → add_check_value values t no_check_value (text c) ≡ some c
        → checksum_option values ((checksum_name t, text c) ∷ []) ≡ ((true, c), [])
    unfolding checksum_option find_check_value
    found_one not_used c e used added = cc
    found_one crc8 c e used added = rw (added, find_check_value)
    found_one crc16 c e used added = rw (added, find_check_value)
    found_one crc32 c e used added = rw (added, find_check_value)
    found_one md5 c e used added = rw (added, find_check_value)
    found_one sha1 c e used added = rw (added, find_check_value)
    found_one sha256 c e used added = rw (added, find_check_value)
    found_one sha512 c e used added = rw (added, find_check_value)
    found_one crc64 c e used added = rw (added, find_check_value)

    checksum_option_lem : (c : C) → checksum_option values (checksum_part c) ≡ ((true, c), [])
    unfolding checksum_option find_check_value
    checksum_option_lem c = elim (Bool-cases (is_not_used (type c))) [
      | inl e ↦ rw (e, unused c e)
      | inr e ↦ rw e (found_one (type c) c refl e (add-checksum c e))
    ]

    module _ (get_option : NumberReader) (numbers : ReadsNumbers get_option) where
      open numbers use {absent, present}

      -- What is read of options that begin with a port and a part number, where they are set.
      port_read :
          (port : Option ℕ) (part_number : Bytes) (c : C)
          → IsPort port
          → get_option port_name
              ((port_part port ++ part_number_part part_number) ++ checksum_part c)
            ≡ ((true, port), part_number_part part_number ++ checksum_part c)
      port_read none [] c h =
          absent port_name (checksum_part c) (ap (λ r. r.0) (checksum_part-port c))
      port_read none (d ∷ rest) c h = absent port_name _ (ap (λ r. r.0) (checksum_part-port c))
      port_read (some p) [] c h = present port_name _ p h refl
      port_read (some p) (d ∷ rest) c h = present port_name _ p h refl

      rest_read :
          (port : Option ℕ) (part_number : Bytes) (c : C)
          → ◌≡◌ {A = Arinc615aOptions C}
              (read_options values port (part_number_part part_number ++ checksum_part c))
              (record { port = port; part_number = part_number; checksum = c })
      rest_read port [] c =
          ap
            (λ (r : Bytes × Options). record {
              port = port;
              part_number = r.0;
              checksum = (checksum_option values r.1).0.1;
            })
            (no_part_number c)
          ∙ ap
              (λ (r : (Bool × C) × Options). record {
                port = port;
                part_number = [];
                checksum = r.0.1;
              })
              (checksum_option_lem c)
      rest_read port (d ∷ rest) c = rw (checksum_option_lem c)

      -- A request with any options, in octet mode, makes the server call its request handler with
      -- the same options; in another mode it is refused.
      pub request_options-additional_options :
          (o : Arinc615aOptions C)
          → IsPort o.port
          → (request_options values get_option true (additional_options values o) ≡ some o)
            × (request_options values get_option false (additional_options values o) ≡ none)
      unfolding request_options
      request_options-additional_options o h = (
        rw (additional_options_lem o, port_read o.port o.part_number o.checksum h)
            (ap some (rest_read o.port o.part_number o.checksum)),
        refl,
      )

      -- The options that a server answers with are those that the client's handler decides about.
      pub handle_option_negotiation-options_of :
          (handler : Arinc615aOptions C → Bool) (o : Arinc615aOptions C)
          → IsPort o.port
          → handle_option_negotiation values get_option handler (options_of values o) ≡ handler o
      unfolding handle_option_negotiation
      handle_option_negotiation-options_of handler o h =
          rw
            (
              options_of-additional_options o,
              additional_options_lem o,
              port_read o.port o.part_number o.checksum h,
            )
            (ap handler (rest_read o.port o.part_number o.checksum))
