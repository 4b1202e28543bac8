-- ===== src/Exchange/Aborts.antt =====
-- The way of an abort, from the user of the data loader to that of the target.
use arinc_615a_gui_tool_suit.Base.{
  ◌≡◌, ◌≢◌, refl, ◌∙◌, ap, Bool, true, some, [], ◌∷◌, if◌then◌else◌,
}
use arinc_615a_gui_tool_suit.Codes.{AbortRequest, abort_by_dlp, abort_by_operator}
use arinc_615a_gui_tool_suit.Tftp.Client.{
  TransferStatus, operation_aborted_by_dlp, operation_aborted_by_operator, Client, request_error,
  transfer_completed, completed, handle,
}
use arinc_615a_gui_tool_suit.Tftp.Client.Messages.{
  Announces, by_dlp, by_operator, handle-abort_message,
}
use arinc_615a_gui_tool_suit.Tftp.Server.{abort_operation}
use arinc_615a_gui_tool_suit.RawData.{RawData}
use arinc_615a_gui_tool_suit.Status.{UploadStatus}
use arinc_615a_gui_tool_suit.Files.ProtocolFilename.{upload_status}
use arinc_615a_gui_tool_suit.Target.Upload.{upload_format}
use arinc_615a_gui_tool_suit.Target.Operation.{StatusFormat, call_abort_request, handles_abort}
use arinc_615a_gui_tool_suit.Target
use arinc_615a_gui_tool_suit.Target.Transmission.{completed_status}
use arinc_615a_gui_tool_suit.Host.Operation.{
  AbortReason, no_abort, operator, protocol, reason_code, do_abort, send_abort, is_aborted,
  start_timer, max,
}
use arinc_615a_gui_tool_suit.Host
use arinc_615a_gui_tool_suit.Host.Status.{status_file_request}

-- What the TFTP client of the target reports for a reason, and what the target asks its user for.
abbrev pub status_of_reason : AbortReason → TransferStatus
status_of_reason operator = operation_aborted_by_operator
status_of_reason _ = operation_aborted_by_dlp

abbrev pub request_of_reason : AbortReason → AbortRequest
request_of_reason operator = abort_by_operator
request_of_reason _ = abort_by_dlp

-- An operation of the data loader that is aborted while it is not initialising, and was not aborted
-- before: the next status file that is requested is answered by an ABORT message for the reason, the
-- timeout starts again, and the reason is forgotten.
pub status_file_request-do_abort :
    {H S : Type 0} (reason : AbortReason) (remote : H) (host : Host.Operation.Operation)
    → host.abort_reason ≡ no_abort
    → reason ≢ no_abort
    → status_file_request {S = S} remote (do_abort {H = H} {S = S} reason host).0 ≡ (
      record host { abort_reason = no_abort },
      send_abort remote (reason_code reason) ∷ start_timer (max 0 host.dlp_timeout) ∷ [],
    )
unfolding status_file_request do_abort is_aborted
status_file_request-do_abort no_abort remote host h k = absurd (k refl)
status_file_request-do_abort operator remote host h k = rw h refl
status_file_request-do_abort protocol remote host h k = rw h refl

then_branch : {A : Type 0} (b : Bool) (x y : A) → b ≡ true → (if b then x else y) ≡ x
then_branch b x y h = rw h

reason-Announces :
    (reason : AbortReason)
    → reason ≢ no_abort
    → Announces (reason_code reason) (status_of_reason reason)
reason-Announces no_abort h = absurd (h refl)
reason-Announces operator h = by_operator
reason-Announces protocol h = by_dlp

-- The way of an abort of an upload. The data loader is aborted for a reason, and was not before; then
-- it answers the next status file with an ABORT message. The TFTP client with which the target sends
-- that status file handles aborts, as it does for this type of file, and has a completion handler: it
-- reports the abort for the reason, and does nothing else. The target asks its user to abort, for the
-- same reason, and does nothing else.
pub abort-reaches-target :
    ⦃lib : RawData⦄ {H G E : Type 0} (not_defined : E → Bool) (e : E) (reason : AbortReason)
    (remote : G) (host : Host.Operation.Operation) (client : Client E) (sent : UploadStatus)
    (op : Target.Operation.Operation H UploadStatus)
    → not_defined e ≡ true
    → reason ≢ no_abort
    → host.abort_reason ≡ no_abort
    → client.handle_abort ≡ handles_abort upload_status
    → client.completion_handler ≡ true
    → ((status_file_request {S = UploadStatus} remote
          (do_abort {H = G} {S = UploadStatus} reason host).0).1
        ≡ send_abort remote (reason_code reason) ∷ start_timer (max 0 host.dlp_timeout) ∷ [])
      × ((handle not_defined
            (transfer_completed request_error (some (abort_operation e (reason_code reason))))
            client).1
          ≡ completed (status_of_reason reason) ∷ [])
      × ((completed_status upload_format sent (status_of_reason reason) op).1
          ≡ call_abort_request (request_of_reason reason) ∷ [])
unfolding completed_status
abort-reaches-target not_defined e reason remote host client sent op h k idle handles reported = (
  ap (λ r. r.1) (status_file_request-do_abort reason remote host idle k),
  ap (λ r. r.1)
      (handle-abort_message not_defined client e (reason-Announces reason k) h reported
        ∙ then_branch client.handle_abort _ _ handles),
  asked reason k,
)
  where
    asked :
        (r : AbortReason)
        → r ≢ no_abort
        → (completed_status upload_format sent (status_of_reason r) op).1
          ≡ call_abort_request (request_of_reason r) ∷ []
    asked no_abort l = absurd (l refl)
    asked operator l = refl
    asked protocol l = refl
