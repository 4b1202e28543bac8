-- ===== src/Exchange/Statuses.antt =====
-- The status files of an upload, from the target to the data loader.
use arinc_615a_gui_tool_suit.Base.{ℕ, ◌≡◌, ◌≢◌, refl, ap, List, [], ◌∷◌, Bytes, ok, continue, true}
use arinc_615a_gui_tool_suit.RawData.{RawData}
use arinc_615a_gui_tool_suit.Codes.{
  FinalStatus, completed, aborted_by_dlp, aborted_by_operator, aborted_by_target_hardware,
  load_part_number_or_download_file_failed, final_status, status_code_of_final,
}
use arinc_615a_gui_tool_suit.Status.{UploadStatus, increment_counter, set_status}
use arinc_615a_gui_tool_suit.Files.ProtocolFilename.{upload_status}
use arinc_615a_gui_tool_suit.Files.Upload.StatusFile.RoundTrip.{
  IsStorable, decode-encode_upload_status,
}
use arinc_615a_gui_tool_suit.Tftp.Client.{successful}
use arinc_615a_gui_tool_suit.Target.Operation.{
  status_file_completed, trigger_timer, protocol_file_operation, expired, cancel_timer, call_status,
  call_finished,
}
use arinc_615a_gui_tool_suit.Target
use arinc_615a_gui_tool_suit.Target.Transmission.{
  forced, set, status_file, finished, timer_handler, completed_status, status_sent,
}
use arinc_615a_gui_tool_suit.Target.Transmission.Numbering.{status_file-ok}
use arinc_615a_gui_tool_suit.Target.Upload.{upload_format}
use arinc_615a_gui_tool_suit.Host
use arinc_615a_gui_tool_suit.Host.Status.{remove, removed, status_switch}
use arinc_615a_gui_tool_suit.Host.Upload.{upload_source, upload_status_completed}
use arinc_615a_gui_tool_suit.Exchange.Agreement.{
  target_finish, host_finish, as_final, report-agree, status_received-ok,
}

module _ ⦃lib : RawData⦄ {H G : Type 0} where
  -- A status file of an upload that the format can hold, from the target to the data loader: the
  -- target sends its encoding, with the code of an acceptance where no code was set; both report
  -- the same status to their handlers when the transfer is done; and the data loader finishes exactly
  -- if the target does, with a code of the same final status and with the same description. The
  -- code is not the failure of a single load, and the data loader knows the reception.
  pub upload_status-agree :
      (op : Target.Operation.Operation H UploadStatus) (host : Host.Operation.Operation)
      (operation : ℕ)
      → let sent = forced upload_format op.status in
        IsStorable (record { protocol_version = op.protocol_version; status = sent })
        → sent.status.code ≢ load_part_number_or_download_file_failed
        → removed operation host.status_operations ≡ 1
        → let next : Target.Operation.Operation H UploadStatus = record op {
          status = record sent { status = increment_counter sent.status };
          status_operation = true;
        } in
          (raw_file : Bytes) × (host' : Host.Operation.Operation) × (actions : List
            (Host.Operation.Action G UploadStatus))
          × (op' : Target.Operation.Operation H UploadStatus) × (others : List
              (Target.Operation.Action H UploadStatus))
          × (status_file upload_format op ≡ (
            next,
            ok (
                protocol_file_operation upload_status (status_file_completed sent) raw_file op
                ∷ trigger_timer
                ∷ []),
          ))
          × (upload_status_completed operation true raw_file host
              ≡ (host', ok (Host.Operation.call_status sent ∷ actions)))
          × (completed_status upload_format sent successful next ≡ (op', call_status sent ∷ others))
          × (target_finish others ≡ as_final (host_finish actions))
  upload_status-agree op host operation stored h known =
      let sent = forced upload_format op.status in
      let (raw_file, written, read) = decode-encode_upload_status _ stored in
      let (host', actions, op', others, received, done, agree) =
        report-agree {H = H} G upload_format upload_source sent raw_file operation host _
          (ap (λ r. continue r (λ file. ok file.status)) read) refl h stored.status.code.0
          stored.status.code.1 known in
      (
        raw_file,
        host',
        actions,
        op',
        others,
        status_file-ok upload_format op raw_file written,
        received,
        done,
        agree,
      )

  pub deliver :
      (op : Target.Operation.Operation H UploadStatus) (host : Host.Operation.Operation)
      (operation : ℕ)
      → let sent = forced upload_format op.status in
        IsStorable (record { protocol_version = op.protocol_version; status = sent })
        → removed operation host.status_operations ≡ 1
        → (raw_file : Bytes) × (status_file upload_format op ≡ (
          record op {
            status = record sent { status = increment_counter sent.status };
            status_operation = true;
          },
          ok (
              protocol_file_operation upload_status (status_file_completed sent) raw_file op
              ∷ trigger_timer
              ∷ []),
        ))
          × (let known : Host.Operation.Operation = record host {
            status_operations = remove operation host.status_operations;
          } in
              let r = status_switch {H = G} upload_source sent sent.status.code known in
              upload_status_completed {H = G} operation true raw_file host
              ≡ (r.0, ok (Host.Operation.call_status sent ∷ r.1)))
  deliver op host operation stored known =
      let (raw_file, written, read) = decode-encode_upload_status _ stored in
      (
        raw_file,
        status_file-ok upload_format op raw_file written,
        status_received-ok upload_source _ raw_file operation host
            (ap (λ r. continue r (λ file. ok file.status)) read) known,
      )

  -- The end of an upload: the target reports its final status, which is not the failure of a single
  -- load, with a description, and the format can hold its status. When the timer expires, the target
  -- sends the file of this status. The data loader that receives it, and knows the reception, reports
  -- the status and finishes with the code for the final status and with the description, stops its
  -- timer and its server. The target that the transfer is done for reports the status, finishes with
  -- the final status and the description, and stops its timer.
  pub upload-finish :
      (final : FinalStatus) (description : Bytes) (op : Target.Operation.Operation H UploadStatus)
      (host : Host.Operation.Operation) (operation : ℕ)
      → let set_op = (finished upload_format final description op).0 in
        IsStorable (record { protocol_version = set_op.protocol_version; status = set_op.status })
        → final ≢ FinalStatus.load_part_number_or_download_file_failed
        → removed operation host.status_operations ≡ 1
        → (raw_file : Bytes) × (sent_op : Target.Operation.Operation H UploadStatus)
          × (timer_handler upload_format expired set_op ≡ (
            sent_op,
            ok (
                protocol_file_operation upload_status
                  (status_file_completed set_op.status)
                  raw_file
                  set_op
                ∷ trigger_timer
                ∷ []),
          ))
          × ((upload_status_completed {H = G} operation true raw_file host).1
              ≡ ok (
                  Host.Operation.call_status set_op.status
                  ∷ Host.Operation.call_finished (status_code_of_final final) description
                  ∷ Host.Operation.cancel_timer
                  ∷ Host.Operation.stop_server
                  ∷ []))
          × ((completed_status upload_format set_op.status successful sent_op).1
              ≡ call_status set_op.status ∷ call_finished final description ∷ cancel_timer ∷ [])
  unfolding timer_handler finished set set_status status_code_of_final completed_status status_sent
      status_switch Host.Operation.finished Target.Operation.finalise final_status
  upload-finish completed description op host operation stored h known =
      let (raw_file, a, b) =
        deliver (set upload_format (status_code_of_final completed) description 0 op) host operation
          stored known in
      (raw_file, _, a, ap (λ r. r.1) b, refl)
  upload-finish aborted_by_dlp description op host operation stored h known =
      let (raw_file, a, b) =
        deliver (set upload_format (status_code_of_final aborted_by_dlp) description 0 op) host
          operation stored known in
      (raw_file, _, a, ap (λ r. r.1) b, refl)
  upload-finish aborted_by_operator description op host operation stored h known =
      let (raw_file, a, b) =
        deliver (set upload_format (status_code_of_final aborted_by_operator) description 0 op) host
          operation stored known in
      (raw_file, _, a, ap (λ r. r.1) b, refl)
  upload-finish aborted_by_target_hardware description op host operation stored h known =
      let (raw_file, a, b) =
        deliver
          (set upload_format (status_code_of_final aborted_by_target_hardware) description 0 op)
          host operation stored known in
      (raw_file, _, a, ap (λ r. r.1) b, refl)
  upload-finish FinalStatus.load_part_number_or_download_file_failed description op host operation
        stored h known =
      absurd (h refl)
