-- ===== src/Tests/Options.antt =====
-- Instances of the properties of the TFTP options.
use arinc_615a_gui_tool_suit.Base.{
  ℕ, ◌<◌, ◌^◌, ◌≡◌, refl, Bool, true, false, not, ◌||◌, Option, none, some, [], ◌∷◌, Bytes, codes,
  decimal, same_text, read_base, read_base-decimal, arith,
}
use arinc_615a_gui_tool_suit.Codes.{arinc_615a_34}
use arinc_615a_gui_tool_suit.Tftp.Options.{
  CheckValueType, not_used, crc8, crc32, is_not_used, CheckValues, Arinc615aOptions, checksum_name,
  Options, extract, NumberReader, options_of, additional_options, add_check_value,
  handle_option_negotiation, request_options,
}
use arinc_615a_gui_tool_suit.Tftp.Options.RoundTrip.{
  AreReadable, ReadsNumbers, request_options-additional_options,
  handle_option_negotiation-options_of,
}
use arinc_615a_gui_tool_suit.Tftp.Options.Unreadable.{no_options, unreadable_checksum}
use arinc_615a_gui_tool_suit.Target.Operation.{initialisation_answer}
use arinc_615a_gui_tool_suit.Target.Protocol.{Protocol, port_of}
use arinc_615a_gui_tool_suit.Host.Operation.{
  initialisation_options, initialisation_options_negotiation,
}
use arinc_615a_gui_tool_suit.Exchange.Ports.{hands_port_on, port-agreed}
use arinc_615a_gui_tool_suit.Tests.Objects.{host}

-- Check values of one type, with any text.
abbrev crc32_type : Option Bytes → CheckValueType
crc32_type none = not_used
crc32_type (some text) = crc32

abbrev crc32_text : Option Bytes → Bytes
crc32_text none = []
crc32_text (some text) = text

abbrev make_crc32 : CheckValueType → Bytes → Option (Option Bytes)
make_crc32 crc32 text = some (some text)
make_crc32 _ text = none

abbrev is_some_value : Option Bytes → Bool
is_some_value none = false
is_some_value (some text) = true

abbrev same_value : Option Bytes → Option Bytes → Bool
same_value none none = true
same_value (some text) (some other) = same_text text other
same_value _ _ = false

abbrev crc32_values : CheckValues (Option Bytes)
crc32_values = record {
  type = crc32_type;
  text = crc32_text;
  make = make_crc32;
  is_valid = is_some_value;
  no_check_value = none;
  same = same_value;
}

unused_value : (c : Option Bytes) → is_not_used (crc32_type c) ≡ true → c ≡ none
unused_value none e = refl
unused_value (some text) e = cc

different_value :
    (c : Option Bytes) → is_not_used (crc32_type c) ≡ false → same_value c none ≡ false
different_value none e = cc
different_value (some text) e = refl

valid_value : (c : Option Bytes) → is_not_used (crc32_type c) ≡ false → is_some_value c ≡ true
valid_value none e = cc
valid_value (some text) e = refl

read_value :
    (c : Option Bytes)
    → is_not_used (crc32_type c) ≡ false
    → make_crc32 (crc32_type c) (crc32_text c) ≡ some c
read_value none e = cc
read_value (some text) e = refl

crc32-AreReadable : AreReadable crc32_values
crc32-AreReadable = record {
  unused = unused_value;
  no_type = refl;
  same_refl = refl;
  different = different_value;
  valid = valid_value;
  read_back = read_value;
}

-- A number of a text, and what is left of the options.
abbrev number_of : Options → Option Bytes × Options → (Bool × Option ℕ) × Options
number_of options (none, rest) = ((true, none), options)
number_of options (some text, rest) = ((true, some (read_base 10 text 0)), rest)

abbrev read_number : NumberReader
read_number name options = number_of options (extract name options)

number_of-none :
    (options : Options) (found : Option Bytes × Options)
    → found.0 ≡ none
    → number_of options found ≡ ((true, none), options)
number_of-none options (none, rest) e = refl
number_of-none options (some text, rest) e = cc

number_of-some :
    (options : Options) (n : ℕ) (found : Option Bytes × Options)
    → n < 2 ^ 16
    → found.0 ≡ some (decimal 4 n)
    → number_of options found ≡ ((true, some n), found.1)
number_of-some options n (none, rest) h e = cc
number_of-some options n (some text, rest) h e =
    let t : text ≡ decimal 4 n = cc in rw (t, read_base-decimal 4 n (omega arith)) refl

read_number-ReadsNumbers : ReadsNumbers read_number
read_number-ReadsNumbers = record {
  absent = λ name options e. number_of-none options (extract name options) e;
  present = λ name options n h e. number_of-some options n (extract name options) h e;
}

abbrev options : Arinc615aOptions (Option Bytes)
options = record {
  port = some 59;
  part_number = codes "ACM4712345678";
  checksum = some (codes "CAFE");
}

request_options-additional_options_example :
    (request_options crc32_values read_number true (additional_options crc32_values options)
      ≡ some options)
    × (request_options crc32_values read_number false (additional_options crc32_values options)
        ≡ none)
request_options-additional_options_example =
    request_options-additional_options crc32_values crc32-AreReadable read_number
      read_number-ReadsNumbers options (omega arith)

handle_option_negotiation-options_of_example :
    handle_option_negotiation crc32_values read_number
      (λ o. is_some_value o.checksum)
      (options_of crc32_values options)
    ≡ true
handle_option_negotiation-options_of_example =
    handle_option_negotiation-options_of crc32_values crc32-AreReadable read_number
      read_number-ReadsNumbers (λ o. is_some_value o.checksum) options (omega arith)

refused_value : add_check_value crc32_values crc8 none (codes "AB") ≡ none
unfolding add_check_value
refused_value = refl

unreadable_checksum_example :
    let received : Options = (checksum_name crc8, codes "AB") ∷ [] in
    (request_options crc32_values read_number true received ≡ some (no_options crc32_values))
    × (request_options crc32_values read_number true received
        ≡ request_options crc32_values read_number true [])
    × (handle_option_negotiation crc32_values read_number (λ o. is_some_value o.checksum) received
        ≡ false)
unreadable_checksum_example =
    unreadable_checksum crc32_values read_number read_number-ReadsNumbers
      (λ o. is_some_value o.checksum) crc8 (codes "AB") refl refused_value

abbrev protocol : Protocol ℕ
protocol = record { protocol_version = arinc_615a_34; operation = none }

port-agreed_example :
    let asked = initialisation_options crc32_values 1059 host in
    (request_options crc32_values read_number true (additional_options crc32_values asked)
      ≡ some asked)
    × (handle_option_negotiation crc32_values read_number
          (λ o. initialisation_options_negotiation (λ c. same_value c none) 1059 o host)
          (options_of crc32_values
            (initialisation_answer crc32_values (port_of protocol asked.port)))
        ≡ hands_port_on arinc_615a_34 || not host.port_option)
port-agreed_example =
    port-agreed crc32_values crc32-AreReadable read_number read_number-ReadsNumbers 1059
      (omega arith) host protocol
