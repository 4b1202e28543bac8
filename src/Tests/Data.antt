-- ===== src/Tests/Data.antt =====
-- The data of the tests: texts as their ASCII codes, and records made of them.
use arinc_615a_gui_tool_suit.Base.{[], ◌∷◌, Bytes, arith}
use arinc_615a_gui_tool_suit.Codes.{arinc_615a_34, operation_in_progress, operation_completed}
use arinc_615a_gui_tool_suit.Codes.Conversions.{IsTransmitted}
use arinc_615a_gui_tool_suit.Files.Text.RoundTrip.{IsStored}
use arinc_615a_gui_tool_suit.Files.ProtocolFile.Header.{IsSupported}
use arinc_615a_gui_tool_suit.Status.{Status, IsStoredStatus}

-- "TEST_123"
abbrev pub test_123 : Bytes
test_123 = 84 ∷ 69 ∷ 83 ∷ 84 ∷ 95 ∷ 49 ∷ 50 ∷ 51 ∷ []

-- "LOAD"
abbrev pub load_name : Bytes
load_name = 76 ∷ 79 ∷ 65 ∷ 68 ∷ []

pub test_123-IsStored : IsStored test_123
test_123-IsStored = ground arith

pub load_name-IsStored : IsStored load_name
load_name-IsStored = ground arith

abbrev pub in_progress : Status
in_progress = record {
  counter = 7;
  exception_timer = 0;
  estimated_time = 60;
  code = operation_in_progress;
  description = test_123;
}

pub operation_in_progress-IsTransmitted : IsTransmitted operation_in_progress
operation_in_progress-IsTransmitted = (λ e. cc, λ e. cc)

pub operation_completed-IsTransmitted : IsTransmitted operation_completed
operation_completed-IsTransmitted = (λ e. cc, λ e. cc)

pub in_progress-IsStoredStatus : IsStoredStatus in_progress
in_progress-IsStoredStatus = record {
  counter = omega arith;
  exception_timer = omega arith;
  estimated_time = omega arith;
  code = operation_in_progress-IsTransmitted;
  description = test_123-IsStored;
}

pub empty-IsStored : IsStored []
empty-IsStored = (tt, omega arith)

pub arinc_615a_34-IsSupported : IsSupported arinc_615a_34
arinc_615a_34-IsSupported = λ e. cc
