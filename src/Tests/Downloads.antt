-- ===== src/Tests/Downloads.antt =====
-- Instances of the properties of the download information, of the application and of its exchanges.
use arinc_615a_gui_tool_suit.Base.{
  ℕ, ◌%◌, ◌^◌, ◌≡◌, refl, true, false, none, some, List, [], ◌∷◌, Bytes, ok, arith, if◌then◌else◌,
}
use arinc_615a_gui_tool_suit.BigEndian.{big_endian}
use arinc_615a_gui_tool_suit.Codes.{arinc_615a_34, operation_accepted}
use arinc_615a_gui_tool_suit.Codes.Conversions.{IsTransmitted}
use arinc_615a_gui_tool_suit.Status.{UploadStatus}
use arinc_615a_gui_tool_suit.Host.DownloadInformation.{
  DownloadInformation, find_file, transfer_ok, transfer_error, finished,
}
use arinc_615a_gui_tool_suit.Host.DownloadInformation.History.{
  Event, started, ended, after, last_report, status_and_size, total_size, find_file-after,
  finished-overall_size,
}
use arinc_615a_gui_tool_suit.Loader.Upload.{Upload, Wizard, transmit_loads}
use arinc_615a_gui_tool_suit.Loader.Upload.Once.{receive, any_accepted, receive-once}
use arinc_615a_gui_tool_suit.Files.ProtocolFilename.{text_of, upload_request}
use arinc_615a_gui_tool_suit.Files.Upload.RequestFile.{RequestFile, encode}
use arinc_615a_gui_tool_suit.Files.Upload.RequestFile.RoundTrip.{
  IsStorable, decode-encode_upload_request,
}
use arinc_615a_gui_tool_suit.Host.Operation.{send_file}
use arinc_615a_gui_tool_suit.Host.Upload.{load_list}
use arinc_615a_gui_tool_suit.Files.Upload.StatusFile.RoundTrip as StatusRoundTrip
use arinc_615a_gui_tool_suit.Files.ProtocolFilename.{upload_status}
use arinc_615a_gui_tool_suit.Target
use arinc_615a_gui_tool_suit.Host
use arinc_615a_gui_tool_suit.Target.Operation.{
  status_file_completed, trigger_timer, protocol_file_operation, call_load_list,
}
use arinc_615a_gui_tool_suit.Target.Transmission.{status_file}
use arinc_615a_gui_tool_suit.Target.Upload.{upload_format, request_file_completed}
use arinc_615a_gui_tool_suit.Host.Upload.{upload_status_completed}
use arinc_615a_gui_tool_suit.Loader.Upload.{operation_status}
use arinc_615a_gui_tool_suit.Exchange.Loads.{with_operation, selected-loads}
use arinc_615a_gui_tool_suit.Loader.Signals.{Action, host_action}
use arinc_615a_gui_tool_suit.Tests.Data.{
  load_name, load_name-IsStored, test_123, test_123-IsStored, in_progress,
  arinc_615a_34-IsSupported,
}
use arinc_615a_gui_tool_suit.Tests.Objects.{no_loads, host, target, load_l}

-- Addresses and check values are numbers.
abbrev download : DownloadInformation ℕ ℕ
download = record {
  target_id = none;
  target_address = none;
  start_time = 0;
  end_time = 0;
  files = [];
  files_information = [];
  overall_status = [];
  overall_size = 0;
}

-- A file that fails, and is transferred again.
abbrev events : List (Event ℕ)
events =
    ended 9 load_name transfer_ok 512
    ∷ started 8 load_name test_123 [] 0
    ∷ ended 7 load_name transfer_error 0
    ∷ started 6 load_name test_123 [] 0
    ∷ []

last_report_test : last_report load_name events ≡ some (transfer_ok, 512)
unfolding last_report
last_report_test = refl

find_file-after_example :
    status_and_size (find_file load_name (after 0 events download).files_information)
    ≡ last_report load_name events
find_file-after_example = find_file-after 0 load_name events download refl

abbrev transferred : DownloadInformation ℕ ℕ
transferred = after 0 events download

finished-overall_size_example :
    ((finished 10 transfer_ok transferred).overall_size
      ≡ total_size transferred.files_information % 2 ^ 64)
    × ((finished 10 transfer_ok transferred).files_information ≡ transferred.files_information)
finished-overall_size_example = finished-overall_size 10 transfer_ok transferred

-- An upload of one load.
abbrev upload : Upload Bytes ℕ
upload = record {
  operation = some host;
  loads = [];
  check_values = 0;
  file_operations = [];
  next_file = 0;
}

abbrev wizard : Wizard Bytes ℕ
wizard = record { upload = upload; selected = load_name ∷ []; load_list_transmitted = false }

abbrev accepted : UploadStatus
accepted = record no_loads { status = record in_progress { code = operation_accepted } }

abbrev statuses : List UploadStatus
statuses = no_loads ∷ accepted ∷ accepted ∷ []

abbrev load_request : RequestFile
load_request = record {
  protocol_version = arinc_615a_34;
  loads = record { header_filename = load_name; part_number = test_123 } ∷ [];
}

request-IsStorable : IsStorable load_request
request-IsStorable = record {
  supported = arinc_615a_34-IsSupported;
  entries = ((load_name-IsStored, test_123-IsStored), tt);
  number = omega arith;
}

raw_request : Bytes
raw_request = (decode-encode_upload_request load_request load_request request-IsStorable).0

encode-request : encode load_request ≡ ok raw_request
unfolding raw_request
encode-request = (decode-encode_upload_request load_request load_request request-IsStorable).1

abbrev transmitted : Upload Bytes ℕ
transmitted = record upload {
  operation = some (record host { file_operation = true });
  loads = load_name ∷ [];
  check_values = 4;
}

abbrev sent : List (Action ℕ UploadStatus ℕ)
sent =
    host_action (
      send_file upload_request (text_of (record { target_id = load_l; type = upload_request }))
        raw_request)
    ∷ []

transmit_loads_test :
    transmit_loads {H = ℕ} {F = ℕ} (λ l. l) (λ l. test_123) (ok 4) (load_name ∷ []) upload
    ≡ (transmitted, ok sent)
unfolding transmit_loads load_list
transmit_loads_test = rw encode-request refl

receive-once_example : receive {H = ℕ} {F = ℕ} (λ l. l) (λ l. test_123) 4 statuses wizard ≡ (
    if any_accepted statuses
    then (record wizard { upload = transmitted; load_list_transmitted = true }, sent)
    else (wizard, []))
receive-once_example =
    receive-once (λ l. l) (λ l. test_123) 4 statuses wizard transmitted sent refl
      transmit_loads_test

-- A target that accepts the upload.
abbrev accepting : Target.Operation.Operation ℕ UploadStatus
accepting = record target { status = accepted }

operation_accepted-IsTransmitted : IsTransmitted operation_accepted
operation_accepted-IsTransmitted = (λ e. cc, λ e. cc)

accepted-IsStorable :
    StatusRoundTrip.IsStorable (record { protocol_version = arinc_615a_34; status = accepted })
accepted-IsStorable = record {
  supported = arinc_615a_34-IsSupported;
  status = record {
    counter = omega arith;
    exception_timer = omega arith;
    estimated_time = omega arith;
    code = operation_accepted-IsTransmitted;
    description = test_123-IsStored;
  };
  list_ratio = omega arith;
  loads = tt;
  number = omega arith;
}

selected-loads_example :
    (raw_file request_file : Bytes) × (host' : Host.Operation.Operation)
    × (next : Target.Operation.Operation ℕ UploadStatus) × (w' : Wizard Bytes ℕ) × (status_file
          upload_format accepting
        ≡ (
          next,
          ok (
              protocol_file_operation upload_status
                (status_file_completed accepted)
                raw_file
                accepting
              ∷ trigger_timer
              ∷ []),
        ))
    × (upload_status_completed {H = ℕ} 3 true raw_file host ≡ (
      host',
      ok (Host.Operation.call_status accepted ∷ Host.Operation.trigger_dlp_timeout 0 host'),
    ))
    × (operation_status {H = ℕ} {F = ℕ}
          (λ l. l)
          (λ l. test_123)
          (ok 4)
          accepted
          (with_operation host' wizard)
        ≡ (
          w',
          ok (
              host_action (
                send_file upload_request
                  (text_of (record { target_id = load_l; type = upload_request }))
                  request_file)
              ∷ []),
        ))
    × (w'.load_list_transmitted ≡ true)
    × ((request_file_completed true request_file target).1
        ≡ ok (
            call_load_list (record { header_filename = load_name; part_number = test_123 } ∷ [])
            ∷ []))
selected-loads_example =
    selected-loads {F = ℕ} (λ l. l) (λ l. test_123) 4 accepting target host 3 wizard
      accepted-IsStorable refl refl refl refl request-IsStorable refl
