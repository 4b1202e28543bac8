-- ===== src/Tftp/Options/Unreadable.antt =====
-- A check value that cannot be read, in a request and in the answer of a server.
use arinc_615a_gui_tool_suit.Base.{
  ◌≡◌, ◌∙◌, refl, ap, Bool, true, false, none, some, [], ◌∷◌, Bytes,
}
use arinc_615a_gui_tool_suit.Tftp.Options.{
  CheckValueType, not_used, crc8, crc16, crc32, md5, sha1, sha256, sha512, crc64, is_not_used,
  CheckValues, Arinc615aOptions, port_name, checksum_name, Options, extract, NumberReader,
  add_check_value, find_check_value, checksum_option, part_number_of, read_options,
  handle_option_negotiation, request_options,
}
use arinc_615a_gui_tool_suit.Tftp.Options.Names.{port-checksum, part_number-checksum}
use arinc_615a_gui_tool_suit.Tftp.Options.RoundTrip.{ReadsNumbers}

module _ {C : Type 0} (values : CheckValues C) where
  open values use {no_check_value, make, is_valid, same}

  -- The options without any value.
  abbrev pub no_options : Arinc615aOptions C
  no_options = record { port = none; part_number = []; checksum = no_check_value }

  unreadable_found :
      (t : CheckValueType) (value : Bytes)
      → is_not_used t ≡ false
      → add_check_value values t no_check_value value ≡ none
      → (checksum_option values ((checksum_name t, value) ∷ [])).0 ≡ (false, no_check_value)
  unfolding checksum_option find_check_value
  unreadable_found not_used value used e = cc
  unreadable_found crc8 value used e = rw (e, find_check_value)
  unreadable_found crc16 value used e = rw (e, find_check_value)
  unreadable_found crc32 value used e = rw (e, find_check_value)
  unreadable_found md5 value used e = rw (e, find_check_value)
  unreadable_found sha1 value used e = rw (e, find_check_value)
  unreadable_found sha256 value used e = rw (e, find_check_value)
  unreadable_found sha512 value used e = rw (e, find_check_value)
  unreadable_found crc64 value used e = rw (e, find_check_value)

  -- No port and no part number stand in front of it.
  unreadable_read :
      (t : CheckValueType) (value : Bytes)
      → is_not_used t ≡ false
      → add_check_value values t no_check_value value ≡ none
      → ◌≡◌ {A = Arinc615aOptions C}
          (read_options values none ((checksum_name t, value) ∷ []))
          no_options
  unreadable_read t value used e =
      ap
        (λ (r : Bytes × Options). record {
          port = none;
          part_number = r.0;
          checksum = (checksum_option values r.1).0.1;
        })
        (rw (part_number-checksum t, part_number_of))
      ∙ ap (λ (r : Bool × C). record { port = none; part_number = []; checksum = r.1 })
          (unreadable_found t value used e)

  -- An option of a check value that is refused, because the constructor throws or the value is not
  -- valid: the server calls its request handler as for a request without options, and the client
  -- lets its handler decide as about an answer without options.
  pub unreadable_checksum :
      (get_option : NumberReader)
      → ReadsNumbers get_option
      → (handler : Arinc615aOptions C → Bool) (t : CheckValueType) (value : Bytes)
      → is_not_used t ≡ false
      → add_check_value values t no_check_value value ≡ none
      → let options : Options = (checksum_name t, value) ∷ [] in
        (request_options values get_option true options ≡ some no_options)
        × (request_options values get_option true options
            ≡ request_options values get_option true [])
        × (handle_option_negotiation values get_option handler options ≡ handler no_options)
  unfolding request_options handle_option_negotiation checksum_option find_check_value
  unreadable_checksum get_option numbers handler t value used e =
      let options : Options = (checksum_name t, value) ∷ [] in
      let no_port : (extract port_name options).0 ≡ none = rw (port-checksum t) in
      let read = unreadable_read t value used e in
      let first : request_options values get_option true options ≡ some no_options =
        rw (numbers.absent port_name options no_port) (ap some read) in
      (
        first,
        first ∙ rw (numbers.absent port_name [] refl) refl,
        rw (numbers.absent port_name options no_port) (ap handler read),
      )
