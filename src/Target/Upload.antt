-- ===== src/Target/Upload.antt =====
-- The upload operation of a target
-- (lib/arinc_615a/target/implementation/UploadOperationImpl.cpp).
pub mod Runs
pub mod Loads
use arinc_615a_gui_tool_suit.Base.{
  refl, ℕ, ◌==◌, Bool, true, false, not, Option, none, some, List, [], ◌∷◌, ◌++◌, Bytes, codes, map,
  if◌then◌else◌, Result, ok, err, Error, arinc_615a_exception,
}
use arinc_615a_gui_tool_suit.RawData.{RawData}
use arinc_615a_gui_tool_suit.Codes.{
  arinc_615a_34, StatusCode, FinalStatus, status_code_of_final, operation_accepted,
}
use arinc_615a_gui_tool_suit.Status.{
  Status, set_status, LoadStatus, UploadStatus, new_load, set_load, load,
}
use arinc_615a_gui_tool_suit.Files.ProtocolFilename.{
  FileType, upload_status, upload_request, filename_of, same_type,
}
use arinc_615a_gui_tool_suit.Files.Upload.StatusFile
use arinc_615a_gui_tool_suit.Files.Upload.RequestFile.{UploadLoad, RequestFile}
use arinc_615a_gui_tool_suit.Files.Upload.RequestFile
use arinc_615a_gui_tool_suit.Tftp.Client.{TransferStatus}
use arinc_615a_gui_tool_suit.Target.Operation.{
  Operation, Action, StatusFormat, RequestType, call_load_list, trigger,
}
use arinc_615a_gui_tool_suit.Target.Transmission.{
  progress_code, is_finished, accepted_operation, in_progress, finished, set, status_file,
  completed_status,
}
use arinc_615a_gui_tool_suit.Target.Requests.{Reception, file_received}
use arinc_615a_gui_tool_suit.Target.Requests

module _ ⦃lib : RawData⦄ where
  -- `UploadStatus`, which derives from `Status`, and its file.
  abbrev pub upload_format : StatusFormat UploadStatus
  upload_format = record {
    overall = λ s. s.status;
    with_overall = λ status s. record s { status = status };
    status_type = upload_status;
    encode_status =
        λ version s. StatusFile.encode (record { protocol_version = version; status = s });
    overall-with_overall = λ status s. refl;
  }

module _ {H : Type 0} ⦃lib : RawData⦄ where
  -- `accepted`
  abbrev pub accepted_called :
      Operation H UploadStatus → Operation H UploadStatus × List (Action H UploadStatus)
  accepted_called = accepted_operation upload_format

  -- `inProgress` without a ratio
  abbrev pub in_progress_called :
      Bool
      → ℕ
      → Bytes
      → Operation H UploadStatus
      → Operation H UploadStatus × List (Action H UploadStatus)
  in_progress_called = in_progress upload_format

  -- `finished`
  abbrev pub finished_called :
      FinalStatus
      → Bytes
      → Operation H UploadStatus
      → Operation H UploadStatus × List (Action H UploadStatus)
  finished_called = finished upload_format

  -- `status`
  abbrev pub set_upload_status :
      StatusCode → Bytes → ℕ → Operation H UploadStatus → Operation H UploadStatus
  set_upload_status = set upload_format

  -- `statusFile`
  abbrev pub upload_status_file :
      Operation H UploadStatus → Operation H UploadStatus × Result (List (Action H UploadStatus))
  upload_status_file = status_file upload_format

  -- `statusFileCompleted`
  abbrev pub status_file_done :
      UploadStatus
      → TransferStatus
      → Operation H UploadStatus
      → Operation H UploadStatus × List (Action H UploadStatus)
  status_file_done = completed_status upload_format

-- `loadAccepted`: the entry is new even where there is one with the name.
pub load_accepted : Bytes → Bytes → UploadStatus → UploadStatus
load_accepted header_filename part_number s = record s {
  loads = s.loads ++ set_load 0 operation_accepted [] (new_load header_filename part_number) ∷ [];
}

-- `loadInProgress`
pub load_in_progress : Bytes → ℕ → Bytes → UploadStatus → UploadStatus
load_in_progress header_filename ratio description s =
    load header_filename (set_load ratio (progress_code description) description) s

-- `loadFinished`
pub load_finished : Bytes → FinalStatus → Bytes → UploadStatus → UploadStatus
load_finished header_filename final description s =
    load header_filename (λ l. set_load l.ratio (status_code_of_final final) description l) s

-- `loadsFinished`
pub loads_finished : FinalStatus → Bytes → UploadStatus → UploadStatus
loads_finished final description s = record s {
  loads =
      map
        (λ (l : LoadStatus).
          if is_finished l.code
          then l
          else set_load l.ratio (status_code_of_final final) description l)
        s.loads;
}

module _ {H : Type 0} where
  -- `inProgress` with a ratio.
  pub in_progress_ratio :
      Bool
      → ℕ
      → Bytes
      → ℕ
      → Operation H UploadStatus
      → Operation H UploadStatus × List (Action H UploadStatus)
  in_progress_ratio immediate estimated_time description list_ratio op = (
    record op {
      status = record op.status {
        status = record (set_status (progress_code description) description op.status.status) {
          estimated_time = estimated_time;
        };
        list_ratio = list_ratio;
      };
    },
    if immediate then trigger ∷ [] else [],
  )

  -- A change of the status of a load.
  pub change_status :
      (UploadStatus → UploadStatus) → Operation H UploadStatus → Operation H UploadStatus
  change_status change op = record op { status = change op.status }

  -- `tftpRequest` and `requestFileRequest`
  abbrev pub tftp_request :
      (H → H → Bool)
      → H
      → RequestType
      → Bytes
      → Operation H UploadStatus
      → Operation H UploadStatus × List (Action H UploadStatus)
  tftp_request same_host = Requests.tftp_request same_host upload_request

  module _ ⦃lib : RawData⦄ where
    -- The loads of a request are the list that the handler is called with.
    abbrev pub request_reception : Reception H UploadStatus RequestFile
    request_reception = record {
      decode_file = RequestFile.decode (record { protocol_version = arinc_615a_34; loads = [] });
      version_of = λ file. file.protocol_version;
      call = λ file. call_load_list file.loads;
      transfer_failed = codes "Request file transmission failed";
      version_invalid = codes "Request file protocol version invalid";
      format_error = codes "Request file format error";
    }

    -- `requestFileCompleted`
    abbrev pub request_file_completed :
        Bool
        → Bytes
        → Operation H UploadStatus
        → Operation H UploadStatus × Result (List (Action H UploadStatus))
    request_file_completed = file_received upload_format request_reception
