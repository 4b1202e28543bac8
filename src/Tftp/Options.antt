-- ===== src/Tftp/Options.antt =====
-- The options of ARINC 615A in TFTP requests (lib/arinc_615a/tftp/Arinc615aOptions.cpp), how the
-- clients send them (clients/implementation/ReadOperationImpl.cpp and WriteOperationImpl.cpp, and
-- OperationImpl.cpp for the answer), and how the servers read them
-- (servers/implementation/ServerImpl.cpp).
pub mod Names
pub mod RoundTrip
pub mod Unreadable
use arinc_615a_gui_tool_suit.Base.{
  ℕ, Bool, true, false, not, Option, none, some, List, [], ◌∷◌, Bytes, codes, decimal, same_text,
  if◌then◌else◌,
}

-- `Arinc649::CheckValueType`
pub data CheckValueType : Type 0 where
  not_used crc8 crc16 crc32 md5 sha1 sha256 sha512 crc64 : CheckValueType

abbrev pub is_not_used : CheckValueType → Bool
is_not_used not_used = true
is_not_used _ = false

-- `Arinc649::CheckValue`, of another repository: its type and its text, its constructor from both,
-- which throws or gives a value, and its two tests.
pub record CheckValues (C : Type 0) : Type 0 where
  pub type : C → CheckValueType
  pub text : C → Bytes
  pub make : CheckValueType → Bytes → Option C
  pub is_valid : C → Bool
  pub no_check_value : C
  pub same : C → C → Bool

-- `Arinc615aOptions`
pub record Arinc615aOptions (C : Type 0) : Type 0 where
  pub port : Option ℕ
  pub part_number : Bytes
  pub checksum : C

-- `Arinc615aOptions_name( KnownOptions )`, for the two options that are no check values.
abbrev pub port_name : Bytes
port_name = codes "port"

abbrev pub part_number_name : Bytes
part_number_name = codes "part number"

-- `Arinc615aOptions_name( CheckValueType )`
abbrev pub checksum_name : CheckValueType → Bytes
checksum_name crc8 = codes "checksum_1"
checksum_name crc16 = codes "checksum_2"
checksum_name crc32 = codes "checksum_3"
checksum_name md5 = codes "checksum_4"
checksum_name sha1 = codes "checksum_5"
checksum_name sha256 = codes "checksum_6"
checksum_name sha512 = codes "checksum_7"
checksum_name crc64 = codes "checksum_8"
checksum_name not_used = []

-- `::Tftp::Packets::Options`, a map from names to values; the order is not observed.
abbrev pub Options : Type 0
Options = List (Bytes × Bytes)

-- `extract( name )`: the value, if there is one, and what is left.
abbrev pub extract : Bytes → Options → Option Bytes × Options
extract name [] = (none, [])
extract name ((key, value) ∷ options) =
    let (found, rest) = extract name options in
    if same_text key name then (some value, options) else (found, (key, value) ∷ rest)

-- `try_emplace( name, value )`: a name that is there already keeps its value.
abbrev pub try_emplace : Bytes → Bytes → Options → Options
try_emplace name value [] = (name, value) ∷ []
try_emplace name value ((key, old) ∷ options) =
    let rest = try_emplace name value options in
    if same_text key name then (key, old) ∷ options else (key, old) ∷ rest

-- The port and the part number among the options.
abbrev pub port_and_part_number : Option ℕ → Bytes → Options
port_and_part_number port part_number =
    let with_port : Options = elim port [
      | some p ↦ try_emplace port_name (decimal 4 p) []
      | none ↦ []
    ] in
    elim part_number [
      | c ∷ rest ↦ try_emplace part_number_name (c ∷ rest) with_port
      | [] ↦ with_port
    ]

-- The order in which the check values are looked for.
abbrev pub checksum_types : List CheckValueType
checksum_types = crc8 ∷ crc16 ∷ crc32 ∷ md5 ∷ sha1 ∷ sha256 ∷ sha512 ∷ crc64 ∷ []

-- What is read before the check value: `Options_getOption< uint16_t >` of the TFTP library takes an
-- option out, says whether it is valid, and gives its value if it is there.
abbrev pub NumberReader : Type 0
NumberReader = Bytes → Options → (Bool × Option ℕ) × Options

-- The option of the part number, taken out.
abbrev pub part_number_of : Options → Bytes × Options
part_number_of options =
    let (found, rest) = extract part_number_name options in
    (elim found [ some value ↦ value | none ↦ [] ], rest)

module _ {C : Type 0} (values : CheckValues C) where
  open values use {type, text, make, is_valid, no_check_value, same}

  -- `Arinc615aOptions::options`
  unfoldable pub options_of : Arinc615aOptions C → Options
  options_of o =
      let options = port_and_part_number o.port o.part_number in
      if not (same o.checksum no_check_value)
      then try_emplace (checksum_name (type o.checksum)) (text o.checksum) options
      else options

  -- The additional options of `tftpOperation` of a read operation; a write operation has no port.
  unfoldable pub additional_options : Arinc615aOptions C → Options
  additional_options o =
      let options = port_and_part_number o.port o.part_number in
      if not (is_not_used (type o.checksum))
      then try_emplace (checksum_name (type o.checksum)) (text o.checksum) options
      else options

  -- One option of the loop in `Arinc615aOptions_checksum`: the check value so far is the first one
  -- that is found, and a second one is an error, as is one that is not valid. An exception of the
  -- constructor is caught.
  unfoldable pub add_check_value : CheckValueType → C → Bytes → Option C
  add_check_value t found value =
      if not (same found no_check_value)
      then none
      else (elim (make t value) [ some c ↦ if is_valid c then some c else none | none ↦ none ])

  -- The loop.
  unfoldable pub find_check_value : List CheckValueType → C → Options → (Bool × C) × Options
  find_check_value [] found options = ((true, found), options)
  find_check_value (t ∷ types) found options =
      let (value, rest) = extract (checksum_name t) options in
      elim value [
        | none ↦ find_check_value types found rest
        | some v ↦ elim (add_check_value t found v) [
          | some c ↦ find_check_value types c rest
          | none ↦ ((false, no_check_value), rest)
        ]
      ]

  -- `Arinc615aOptions_checksum`
  unfoldable pub checksum_option : Options → (Bool × C) × Options
  checksum_option options = find_check_value checksum_types no_check_value options

  -- The options behind the port, whether valid or not.
  abbrev pub read_options : Option ℕ → Options → Arinc615aOptions C
  read_options port options =
      let (part_number, rest) = part_number_of options in
      let (checksum, others) = checksum_option rest in
      record { port = port; part_number = part_number; checksum = checksum.1 }

  module _ (get_option : NumberReader) where
    -- `handleOptionNegotiation` of a client, with the handler that decides.
    unfoldable pub handle_option_negotiation : (Arinc615aOptions C → Bool) → Options → Bool
    handle_option_negotiation handler server_options =
        let (port, rest) = get_option port_name server_options in
        if not port.0 then false else handler (read_options port.1 rest)

    -- `tftpRequestHandler` of a server: nothing where the transfer mode is refused, or the options
    -- for the request handler. The server does not look at whether the port and the check value are
    -- valid.
    unfoldable pub request_options : Bool → Options → Option (Arinc615aOptions C)
    request_options octet additional_client_options =
        let (port, rest) = get_option port_name additional_client_options in
        if octet then some (read_options port.1 rest) else none
