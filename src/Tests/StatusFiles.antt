-- ===== src/Tests/StatusFiles.antt =====
-- Instances of the properties of status values and status files.
use arinc_615a_gui_tool_suit.Base.{◌≡◌, [], ◌∷◌, Bytes, arith, ok}
use arinc_615a_gui_tool_suit.BigEndian.{big_endian}
use arinc_615a_gui_tool_suit.Codes.{arinc_615a_34, operation_completed}
use arinc_615a_gui_tool_suit.Files.Upload.StatusFile as UploadFile
use arinc_615a_gui_tool_suit.Files.Upload.StatusFile.RoundTrip as UploadRoundTrip
use arinc_615a_gui_tool_suit.Files.Download.StatusFile as DownloadFile
use arinc_615a_gui_tool_suit.Files.Download.StatusFile.RoundTrip as DownloadRoundTrip
use arinc_615a_gui_tool_suit.Tests.Data.{
  test_123, load_name, test_123-IsStored, load_name-IsStored, in_progress,
  in_progress-IsStoredStatus, operation_completed-IsTransmitted, empty-IsStored,
  arinc_615a_34-IsSupported,
}

abbrev upload_status : UploadFile.UploadStatusFile
upload_status = record {
  protocol_version = arinc_615a_34;
  status = record {
    status = in_progress;
    list_ratio = 25;
    loads =
        record {
          header_filename = test_123;
          part_number = load_name;
          ratio = 100;
          code = operation_completed;
          description = [];
        }
        ∷ [];
  };
}

upload_status-IsStorable : UploadRoundTrip.IsStorable upload_status
upload_status-IsStorable = record {
  supported = arinc_615a_34-IsSupported;
  status = in_progress-IsStoredStatus;
  list_ratio = omega arith;
  loads = (
    record {
      header_filename = test_123-IsStored;
      part_number = load_name-IsStored;
      ratio = omega arith;
      code = operation_completed-IsTransmitted;
      description = empty-IsStored;
    },
    tt,
  );
  number = omega arith;
}

decode-encode_upload_status_example :
    (raw_data : Bytes) × (UploadFile.encode upload_status ≡ ok raw_data)
    × (UploadFile.decode raw_data ≡ ok upload_status)
decode-encode_upload_status_example =
    UploadRoundTrip.decode-encode_upload_status upload_status upload_status-IsStorable

abbrev download_status : DownloadFile.DownloadStatusFile
download_status = record {
  protocol_version = arinc_615a_34;
  status = record {
    status = in_progress;
    list_ratio = 99;
    files =
        record { filename = load_name; code = operation_completed; description = test_123 } ∷ [];
  };
}

download_status-IsStorable : DownloadRoundTrip.IsStorable download_status
download_status-IsStorable = record {
  supported = arinc_615a_34-IsSupported;
  status = in_progress-IsStoredStatus;
  list_ratio = omega arith;
  files = (
    record {
      filename = load_name-IsStored;
      code = operation_completed-IsTransmitted;
      description = test_123-IsStored;
    },
    tt,
  );
  number = omega arith;
}

decode-encode_download_status_example :
    (raw_data : Bytes) × (DownloadFile.encode download_status ≡ ok raw_data)
    × (DownloadFile.decode raw_data ≡ ok download_status)
decode-encode_download_status_example =
    DownloadRoundTrip.decode-encode_download_status download_status download_status-IsStorable
