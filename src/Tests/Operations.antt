-- ===== src/Tests/Operations.antt =====
-- Instances of the properties of the single operations of targets and data loaders.
use arinc_615a_gui_tool_suit.Base.{
  if◌then◌else◌, ℕ, ◌≡◌, ◌==◌, refl, true, false, some, List, [], ◌∷◌,
}
use arinc_615a_gui_tool_suit.BigEndian.{big_endian}
use arinc_615a_gui_tool_suit.Codes.{arinc_615a_34}
use arinc_615a_gui_tool_suit.Status.{DownloadStatus}
use arinc_615a_gui_tool_suit.Files.ProtocolFilename.{load_configuration_list, ProtocolFilename}
use arinc_615a_gui_tool_suit.Target
use arinc_615a_gui_tool_suit.Target.Operation.{read, write, illegal_tftp_operation, expired}
use arinc_615a_gui_tool_suit.Target.Transmission.{play}
use arinc_615a_gui_tool_suit.Target.Transmission.Sent.{status_files, Numbered}
use arinc_615a_gui_tool_suit.Target.Upload.{upload_format}
use arinc_615a_gui_tool_suit.Target.Upload.Runs as Upload
use arinc_615a_gui_tool_suit.Target.Download.{download_format}
use arinc_615a_gui_tool_suit.Target.Download.Operator.Runs as Operator
use arinc_615a_gui_tool_suit.Host
use arinc_615a_gui_tool_suit.Host.Operation.{
  receive_status, receive_list, answer_error, call_finished, cancel_timer, stop_server,
  check_request, same_target, is_aborted, finished,
}
use arinc_615a_gui_tool_suit.Host.Status.{
  status_file_request, status_file_completed, removed, status_received,
}
use arinc_615a_gui_tool_suit.Host.Status.Pending.{
  Event, status_requested, status_completed, after, after-removed, is_pending,
}
use arinc_615a_gui_tool_suit.Host.Upload.{upload_source}
use arinc_615a_gui_tool_suit.Tests.Objects.{load_l, target, host}
use arinc_615a_gui_tool_suit.Tests.Data.{in_progress}

abbrev target_events : List (Upload.Event ℕ)
target_events = Upload.timer_ended expired ∷ Upload.user_accepted ∷ Upload.timer_ended expired ∷ []

upload-Numbered_example :
    let r = play (Upload.handle ◌==◌) target_events target in
    Numbered upload_format arinc_615a_34 7 (status_files r.1) r.0.status.status.counter
upload-Numbered_example = Upload.upload-Numbered ◌==◌ target_events target

abbrev download_target : Target.Operation.Operation ℕ DownloadStatus
download_target = record {
  protocol_version = arinc_615a_34;
  target_id = load_l;
  host_address = some 1;
  host_port = 59;
  status = record { status = in_progress; list_ratio = 5; files = [] };
  status_operation = false;
  file_operation = false;
  initialisation_operation = false;
}

abbrev operator_events : List (Operator.Event ℕ)
operator_events = Operator.timer_ended expired ∷ Operator.user_downloading_list [] ∷ []

operator-Numbered_example :
    let r = play (Operator.handle ◌==◌) operator_events download_target in
    Numbered download_format arinc_615a_34 7 (status_files r.1) r.0.status.status.counter
operator-Numbered_example = Operator.operator-Numbered ◌==◌ operator_events download_target

abbrev new_host : Host.Operation.Operation
new_host = record host { status_operations = [] }

-- A request, the end of an unknown reception, and the end of the known one.
abbrev host_events : List (Event ℕ)
host_events =
    status_requested 1
    ∷ status_completed 9 false []
    ∷ status_requested 1
    ∷ status_completed 4 false []
    ∷ []

abbrev list_file : ProtocolFilename
list_file = record { target_id = load_l; type = load_configuration_list }

-- The reception 4 has ended, and the reception 5 is pending.
is_pending_test :
    (is_pending upload_source host_events new_host 4 false ≡ false)
    × (is_pending upload_source host_events new_host 5 false ≡ true)
unfolding is_pending status_file_request is_aborted status_file_completed status_received finished
is_pending_test = (refl, refl)

after-removed_example :
    removed 5 (after upload_source host_events new_host).status_operations
    ≡ (if is_pending upload_source host_events new_host 5 false then 1 else 0)
after-removed_example = after-removed upload_source (λ op. (refl, refl)) host_events new_host 5 refl
