-- ===== src/Tests/ListFiles.antt =====
-- Instances of the properties of the files that hold lists.
use arinc_615a_gui_tool_suit.Base.{◌≡◌, [], ◌∷◌, Bytes, arith, ok}
use arinc_615a_gui_tool_suit.BigEndian.{big_endian}
use arinc_615a_gui_tool_suit.Codes.{arinc_615a_34, accepted}
use arinc_615a_gui_tool_suit.Files.Upload.RequestFile as Upload
use arinc_615a_gui_tool_suit.Files.Upload.RequestFile.RoundTrip as UploadRoundTrip
use arinc_615a_gui_tool_suit.Files.Download.ListFile as Offer
use arinc_615a_gui_tool_suit.Files.Download.AnswerFile as Answer
use arinc_615a_gui_tool_suit.Files.Download.AnswerFile.RoundTrip as AnswerRoundTrip
use arinc_615a_gui_tool_suit.Files.InitializationFile as Initialization
use arinc_615a_gui_tool_suit.Tests.Data.{
  test_123, load_name, test_123-IsStored, load_name-IsStored, arinc_615a_34-IsSupported,
}

abbrev upload_request : Upload.RequestFile
upload_request = record {
  protocol_version = arinc_615a_34;
  loads = record { header_filename = test_123; part_number = load_name } ∷ [];
}

abbrev upload_request_before : Upload.RequestFile
upload_request_before = record { protocol_version = arinc_615a_34; loads = [] }

upload_request-IsStorable : UploadRoundTrip.IsStorable upload_request
upload_request-IsStorable = record {
  supported = arinc_615a_34-IsSupported;
  entries = ((test_123-IsStored, load_name-IsStored), tt);
  number = omega arith;
}

decode-encode_upload_request_example :
    (raw_data : Bytes) × (Upload.encode upload_request ≡ ok raw_data)
    × (Upload.decode upload_request_before raw_data ≡ ok upload_request)
decode-encode_upload_request_example =
    UploadRoundTrip.decode-encode_upload_request upload_request upload_request_before
      upload_request-IsStorable

abbrev list_file : Offer.ListFile
list_file = record {
  protocol_version = arinc_615a_34;
  files = record { filename = test_123; description = load_name } ∷ [];
}

abbrev answer : Answer.AnswerFile
answer = record { protocol_version = arinc_615a_34; files = load_name ∷ [] }

abbrev answer_before : Answer.AnswerFile
answer_before = record { protocol_version = arinc_615a_34; files = [] }

answer-IsStorable : AnswerRoundTrip.IsStorable answer
answer-IsStorable = record {
  supported = arinc_615a_34-IsSupported;
  names = (load_name-IsStored, tt);
  number = omega arith;
}

decode-encode_answer_example :
    (raw_data : Bytes) × (Answer.encode answer ≡ ok raw_data)
    × (Answer.decode answer_before raw_data ≡ ok answer)
decode-encode_answer_example =
    AnswerRoundTrip.decode-encode_answer answer answer_before answer-IsStorable

abbrev initialization : Initialization.InitializationFile
initialization = record {
  protocol_version = arinc_615a_34;
  response = record { code = accepted; description = test_123 };
}
