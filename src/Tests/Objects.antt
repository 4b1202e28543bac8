-- ===== src/Tests/Objects.antt =====
-- A target and a data loader for the tests. An address is a number.
use arinc_615a_gui_tool_suit.Base.{ℕ, false, some, [], ◌∷◌}
use arinc_615a_gui_tool_suit.Codes.{arinc_615a_34}
use arinc_615a_gui_tool_suit.Status.{UploadStatus}
use arinc_615a_gui_tool_suit.TargetId.{TargetId}
use arinc_615a_gui_tool_suit.Target
use arinc_615a_gui_tool_suit.Host
use arinc_615a_gui_tool_suit.Host.Operation.{no_abort}
use arinc_615a_gui_tool_suit.Tests.Data.{load_name, in_progress}

abbrev pub load_l : TargetId
load_l = record { thw_id = load_name; position = 76 ∷ [] }

abbrev pub no_loads : UploadStatus
no_loads = record { status = in_progress; list_ratio = 5; loads = [] }

abbrev pub target : Target.Operation.Operation ℕ UploadStatus
target = record {
  protocol_version = arinc_615a_34;
  target_id = load_l;
  host_address = some 1;
  host_port = 59;
  status = no_loads;
  status_operation = false;
  file_operation = false;
  initialisation_operation = false;
}

-- The reception 3 is known.
abbrev pub host : Host.Operation.Operation
host = record {
  protocol_version = arinc_615a_34;
  target_id = load_l;
  dlp_timeout = 13;
  port_option = false;
  abort_reason = no_abort;
  initialisation_operation = false;
  status_operations = 3 ∷ [];
  next_operation = 4;
  list_operation = false;
  file_operation = false;
  sent = false;
  wait_for_final_status = false;
}
