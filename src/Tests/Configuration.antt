-- ===== src/Tests/Configuration.antt =====
-- Instances of the properties of the load configuration list.
use arinc_615a_gui_tool_suit.Base.{◌≡◌, [], ◌∷◌, Bytes, arith, ok, err, arinc_615a_exception}
use arinc_615a_gui_tool_suit.BigEndian.{big_endian}
use arinc_615a_gui_tool_suit.Codes.{arinc_615a_34}
use arinc_615a_gui_tool_suit.Files.Information.LoadConfigurationList.{
  LoadConfigurationList, encode, decode,
}
use arinc_615a_gui_tool_suit.Files.Information.LoadConfigurationList.RoundTrip.{
  IsStorable, decode-encode_load_configuration, decode-encode_short_list,
}
use arinc_615a_gui_tool_suit.Tests.Data.{
  test_123, load_name, test_123-IsStored, load_name-IsStored, empty-IsStored,
  arinc_615a_34-IsSupported,
}

abbrev no_targets : LoadConfigurationList
no_targets = record { protocol_version = arinc_615a_34; targets_hardware = [] }

no_targets-IsStorable : IsStorable no_targets
no_targets-IsStorable = record {
  supported = arinc_615a_34-IsSupported;
  targets = tt;
  number = omega arith;
}

abbrev one_target : LoadConfigurationList
one_target = record {
  protocol_version = arinc_615a_34;
  targets_hardware =
      record {
        literal_name = test_123;
        serial_number = load_name;
        part_numbers =
            record { part_number = load_name; amendment = []; part_designation = test_123 } ∷ [];
      }
      ∷ [];
}

one_target-IsStorable : IsStorable one_target
one_target-IsStorable = record {
  supported = arinc_615a_34-IsSupported;
  targets = (
    record {
      literal_name = test_123-IsStored;
      serial_number = load_name-IsStored;
      part_numbers = ((load_name-IsStored, empty-IsStored, test_123-IsStored), tt);
      number = omega arith;
    },
    tt,
  );
  number = omega arith;
}

decode-encode_load_configuration_example :
    (raw_data : Bytes) × (encode one_target ≡ ok raw_data)
    × (decode no_targets raw_data ≡ ok one_target)
decode-encode_load_configuration_example =
    decode-encode_load_configuration one_target no_targets one_target-IsStorable (omega arith)
      (omega arith)

decode-encode_short_list_example :
    (raw_data : Bytes) × (encode no_targets ≡ ok raw_data)
    × (decode no_targets raw_data ≡ err arinc_615a_exception)
decode-encode_short_list_example =
    decode-encode_short_list no_targets no_targets no_targets-IsStorable (omega arith)
