-- ===== src/Tests/Exchanges.antt =====
-- Instances of the properties of targets and data loaders. An address is a number.
use arinc_615a_gui_tool_suit.Base.{
  ℕ, ◌≡◌, ◌≢◌, ◌==◌, refl, true, false, none, some, List, [], ◌∷◌, Bytes, ok, arith,
}
use arinc_615a_gui_tool_suit.BigEndian.{big_endian}
use arinc_615a_gui_tool_suit.Codes.{
  arinc_615a_34, FinalStatus, load_part_number_or_download_file_failed, completed,
  operation_in_progress, operation_aborted_by_operator, accepted, status_code_of_final,
  abort_by_operator, denied, operation_not_accepted,
}
use arinc_615a_gui_tool_suit.TargetId.{is_valid, is_compliant}
use arinc_615a_gui_tool_suit.Status.{UploadStatus, increment_counter, set_status}
use arinc_615a_gui_tool_suit.Files.ProtocolFilename.{
  upload_status, upload_request, upload_initialization, text_of,
}
use arinc_615a_gui_tool_suit.Files.Upload.StatusFile.RoundTrip as StatusRoundTrip
use arinc_615a_gui_tool_suit.Files.Upload.RequestFile.RoundTrip as RequestRoundTrip
use arinc_615a_gui_tool_suit.Files.Upload.RequestFile.{UploadLoad}
use arinc_615a_gui_tool_suit.Tftp.Client
use arinc_615a_gui_tool_suit.Tftp.Server.{abort_operation}
use arinc_615a_gui_tool_suit.Target
use arinc_615a_gui_tool_suit.Target.Operation.{
  expired, read, start, status_file_completed, protocol_file_operation, trigger_timer, call_status,
  call_finished, send_initialization, call_load_list, call_abort_request,
}
use arinc_615a_gui_tool_suit.Target.Transmission.{
  finished, set, status_file, completed_status, timer_handler,
}
use arinc_615a_gui_tool_suit.Target.Upload.{upload_format, request_file_completed}
use arinc_615a_gui_tool_suit.Host
use arinc_615a_gui_tool_suit.Host.Operation.{
  no_abort, operator, do_abort, send_abort, start_timer, is_no_abort, receive_status, call_finished,
  stop_server, answer_error, receive_list, initialisation_file_completed,
  call_initialisation_response, send_file, initialise, start_server, request_initialization,
}
use arinc_615a_gui_tool_suit.Target.Protocol.{
  Protocol, received_tftp_request, call_new_operation, upload, ErrorOperation, start_error,
}
use arinc_615a_gui_tool_suit.Exchange.Initialization.{
  initialise-reaches-target, denies, refusal-reaches-host,
}
use arinc_615a_gui_tool_suit.Host.Status.{status_file_request}
use arinc_615a_gui_tool_suit.Host.Upload.{upload_status_completed, load_list}
use arinc_615a_gui_tool_suit.Exchange.Agreement.{target_finish, host_finish, as_final}
use arinc_615a_gui_tool_suit.Exchange.Statuses.{upload_status-agree, upload-finish}
use arinc_615a_gui_tool_suit.Exchange.Aborts.{abort-reaches-target}
use arinc_615a_gui_tool_suit.Exchange.Requests.{upload-begins}
use arinc_615a_gui_tool_suit.Tests.Objects.{load_l, no_loads, target, host}
use arinc_615a_gui_tool_suit.Tests.Data.{
  test_123, load_name, test_123-IsStored, load_name-IsStored, in_progress,
  in_progress-IsStoredStatus, operation_completed-IsTransmitted, arinc_615a_34-IsSupported,
}

abbrev sent_target : Target.Operation.Operation ℕ UploadStatus
sent_target = record target {
  status = record no_loads { status = increment_counter in_progress };
  status_operation = true;
}

no_loads-IsStorable :
    StatusRoundTrip.IsStorable (record { protocol_version = arinc_615a_34; status = no_loads })
no_loads-IsStorable = record {
  supported = arinc_615a_34-IsSupported;
  status = in_progress-IsStoredStatus;
  list_ratio = omega arith;
  loads = tt;
  number = omega arith;
}

in_progress-other : operation_in_progress ≢ load_part_number_or_download_file_failed
in_progress-other e = cc

upload_status-agree_example :
    (raw_file : Bytes) × (host' : Host.Operation.Operation) × (actions : List
      (Host.Operation.Action ℕ UploadStatus))
    × (op' : Target.Operation.Operation ℕ UploadStatus) × (others : List
        (Target.Operation.Action ℕ UploadStatus))
    × (status_file upload_format target ≡ (
      sent_target,
      ok (
          protocol_file_operation upload_status (status_file_completed no_loads) raw_file target
          ∷ trigger_timer
          ∷ []),
    ))
    × (upload_status_completed 3 true raw_file host
        ≡ (host', ok (Host.Operation.call_status no_loads ∷ actions)))
    × (completed_status upload_format no_loads Client.successful sent_target
        ≡ (op', call_status no_loads ∷ others))
    × (target_finish others ≡ as_final (host_finish actions))
upload_status-agree_example =
    upload_status-agree target host 3 no_loads-IsStorable in_progress-other refl

abbrev ended_target : Target.Operation.Operation ℕ UploadStatus
ended_target = (finished upload_format completed load_name target).0

ended-IsStorable :
    StatusRoundTrip.IsStorable
      (record { protocol_version = ended_target.protocol_version; status = ended_target.status })
unfolding finished set set_status status_code_of_final
ended-IsStorable = record {
  supported = arinc_615a_34-IsSupported;
  status = record {
    counter = omega arith;
    exception_timer = omega arith;
    estimated_time = omega arith;
    code = operation_completed-IsTransmitted;
    description = load_name-IsStored;
  };
  list_ratio = omega arith;
  loads = tt;
  number = omega arith;
}

completed-other : completed ≢ FinalStatus.load_part_number_or_download_file_failed
completed-other e = cc

upload-finish_example :
    (raw_file : Bytes) × (sent_op : Target.Operation.Operation ℕ UploadStatus) × (timer_handler
        upload_format expired ended_target
      ≡ (
        sent_op,
        ok (
            protocol_file_operation upload_status
              (status_file_completed ended_target.status)
              raw_file
              ended_target
            ∷ trigger_timer
            ∷ []),
      ))
    × ((upload_status_completed {H = ℕ} 3 true raw_file host).1
        ≡ ok (
            Host.Operation.call_status ended_target.status
            ∷ Host.Operation.call_finished (status_code_of_final completed) load_name
            ∷ Host.Operation.cancel_timer
            ∷ Host.Operation.stop_server
            ∷ []))
    × ((completed_status upload_format ended_target.status Client.successful sent_op).1
        ≡ call_status ended_target.status
          ∷ call_finished completed load_name
          ∷ Target.Operation.cancel_timer
          ∷ [])
upload-finish_example =
    upload-finish completed load_name target host 3 ended-IsStorable completed-other refl

-- The TFTP client that sends the status file.
abbrev client : Client.Client ℕ
client = record {
  dlp_retries = 2;
  handle_abort = true;
  retries = 0;
  operation = true;
  error_information = none;
  waiting = false;
  completion_handler = true;
  deferred_handler = false;
}

operator-other : operator ≢ no_abort
operator-other e = cc

abort-reaches-target_example :
    ((status_file_request {H = ℕ} {S = UploadStatus} 5
        (do_abort {H = ℕ} {S = UploadStatus} operator host).0).1
      ≡ send_abort 5 operation_aborted_by_operator ∷ start_timer 13 ∷ [])
    × ((Client.handle
          (λ code. code == 0)
          (Client.transfer_completed Client.request_error
            (some (abort_operation 0 operation_aborted_by_operator)))
          client).1
        ≡ Client.completed Client.operation_aborted_by_operator ∷ [])
    × ((completed_status upload_format no_loads Client.operation_aborted_by_operator target).1
        ≡ call_abort_request abort_by_operator ∷ [])
abort-reaches-target_example =
    abort-reaches-target (λ code. code == 0) 0 operator 5 host client no_loads target refl
      operator-other refl refl refl

loads : List UploadLoad
loads = record { header_filename = test_123; part_number = load_name } ∷ []

loads-IsStorable :
    RequestRoundTrip.IsStorable (record { protocol_version = arinc_615a_34; loads = loads })
unfolding loads
loads-IsStorable = record {
  supported = arinc_615a_34-IsSupported;
  entries = ((test_123-IsStored, load_name-IsStored), tt);
  number = omega arith;
}

upload-begins_example :
    (init_file request_file : Bytes) × (op' : Target.Operation.Operation ℕ UploadStatus)
    × (host' : Host.Operation.Operation) × (start 1 none target
        ≡ (op', ok (send_initialization init_file ∷ [])))
    × (initialisation_file_completed {H = ℕ} {S = UploadStatus} Client.successful init_file host ≡ (
      host',
      ok (
          call_initialisation_response (record { code = accepted; description = [] })
          ∷ start_timer 13
          ∷ []),
    ))
    × (host'.protocol_version ≡ arinc_615a_34)
    × ((load_list {H = ℕ} loads host').1
        ≡ ok (
            send_file upload_request
              (text_of (record { target_id = load_l; type = upload_request }))
              request_file
            ∷ []))
    × ((request_file_completed true request_file target).1 ≡ ok (call_load_list loads ∷ []))
upload-begins_example = upload-begins 1 none loads target target host loads-IsStorable refl refl

load_l-valid : is_valid load_l ≡ true
unfolding is_compliant
load_l-valid = refl

-- A target with no operation registered.
abbrev protocol : Protocol ℕ
protocol = record { protocol_version = arinc_615a_34; operation = none }

initialise-reaches-target_example :
    let filename = text_of (record { target_id = load_l; type = upload_initialization }) in
    ((initialise {H = ℕ} {S = UploadStatus} upload_initialization host).1
      ≡ start_server ∷ request_initialization upload_initialization filename ∷ [])
    × (received_tftp_request {H = ℕ} 7 read filename (some 5000) protocol
        ≡ call_new_operation upload 7 (some 5000) load_l ∷ [])
initialise-reaches-target_example =
    initialise-reaches-target {G = ℕ} {S = UploadStatus} 7 (some 5000) protocol
      upload_initialization upload host refl load_l-valid

abbrev refusal : ErrorOperation
refusal = record {
  protocol_version = arinc_615a_34;
  status = denied;
  description = load_name;
  completion_handler = true;
  initialisation_operation = false;
}

refusal-reaches-host_example :
    (raw_file : Bytes) × (start_error refusal ≡ (
      record refusal { initialisation_operation = true },
      ok (Target.Protocol.send_initialization raw_file ∷ []),
    ))
    × (initialisation_file_completed {H = ℕ} {S = UploadStatus} Client.successful raw_file host ≡ (
      record host { initialisation_operation = false },
      ok (
          call_initialisation_response (record { code = denied; description = load_name })
          ∷ Host.Operation.call_finished operation_not_accepted load_name
          ∷ Host.Operation.cancel_timer
          ∷ Host.Operation.stop_server
          ∷ []),
    ))
refusal-reaches-host_example = refusal-reaches-host refusal host denies (record {
  supported = arinc_615a_34-IsSupported;
  code = λ e. cc;
  description = load_name-IsStored;
})
