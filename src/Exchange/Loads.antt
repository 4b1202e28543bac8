-- ===== src/Exchange/Loads.antt =====
-- The wizard of an upload between the data loader and the target: the first status that accepts the
-- upload leads to the list of the selected loads.
use arinc_615a_gui_tool_suit.Base.{
  ◌≡◌, refl, ◌∙◌, sym, ap, ℕ, true, false, some, [], ◌∷◌, Bytes, map, ok,
}
use arinc_615a_gui_tool_suit.RawData.{RawData}
use arinc_615a_gui_tool_suit.Codes.{arinc_615a_34, operation_accepted}
use arinc_615a_gui_tool_suit.Status.{UploadStatus}
use arinc_615a_gui_tool_suit.Files.ProtocolFilename.{upload_request, upload_status, text_of}
use arinc_615a_gui_tool_suit.Files.Upload.RequestFile
use arinc_615a_gui_tool_suit.Files.Upload.RequestFile.RoundTrip as RequestRoundTrip
use arinc_615a_gui_tool_suit.Files.Upload.StatusFile.RoundTrip as StatusRoundTrip
use arinc_615a_gui_tool_suit.Target.Operation.{
  status_file_completed, trigger_timer, protocol_file_operation, call_load_list,
}
use arinc_615a_gui_tool_suit.Target
use arinc_615a_gui_tool_suit.Target.Transmission.{forced, status_file}
use arinc_615a_gui_tool_suit.Target.Upload.{upload_format, request_file_completed}
use arinc_615a_gui_tool_suit.Host
use arinc_615a_gui_tool_suit.Host.Operation.{send_file}
use arinc_615a_gui_tool_suit.Host.Status.{remove, removed, status_switch}
use arinc_615a_gui_tool_suit.Host.Upload.{upload_source, upload_status_completed}
use arinc_615a_gui_tool_suit.Loader.Signals.{host_action}
use arinc_615a_gui_tool_suit.Loader.Upload.{Wizard, upload_load, transmit_loads, operation_status}
use arinc_615a_gui_tool_suit.Exchange.Requests.{load_list-sent, file_received-loads}
use arinc_615a_gui_tool_suit.Exchange.Statuses.{deliver}

-- The upload of a wizard while the operation is `host`.
abbrev pub with_operation : {L K : Type 0} → Host.Operation.Operation → Wizard L K → Wizard L K
with_operation host w = record w { upload = record w.upload { operation = some host } }

module _ ⦃lib : RawData⦄ {G L K F : Type 0} (name part_number : L → Bytes) (check_values : K) where
  wizard-sends :
      (status : UploadStatus) (host : Host.Operation.Operation) (w : Wizard L K) (raw_file : Bytes)
      → status.status.code ≡ operation_accepted
      → w.load_list_transmitted ≡ false
      → host.sent ≡ false
      → RequestFile.encode (record {
        protocol_version = host.protocol_version;
        loads = map (upload_load name part_number) w.selected;
      })
        ≡ ok raw_file
      → operation_status {H = G} {F = F} name part_number
          (ok check_values)
          status
          (with_operation host w)
        ≡ (
          record w {
            upload = record w.upload {
              operation = some (record host { file_operation = true });
              loads = w.selected;
              check_values = check_values;
            };
            load_list_transmitted = true;
          },
          ok (
              host_action (
                send_file upload_request
                  (text_of (record { target_id = host.target_id; type = upload_request }))
                  raw_file)
              ∷ []),
        )
  unfolding operation_status transmit_loads
  wizard-sends status host w raw_file accepted new unsent e =
      simp (accepted, new, load_list-sent {G = G} _ host raw_file unsent e)

-- What the data loader does with an acceptance.
accepted-switch :
    ⦃lib : RawData⦄ {G : Type 0} (status : UploadStatus) (host : Host.Operation.Operation)
    → status.status.code ≡ operation_accepted
    → status_switch {H = G} upload_source status status.status.code host
      ≡ (host, Host.Operation.trigger_dlp_timeout 0 host)
unfolding status_switch
accepted-switch status host e = rw e refl

module _ ⦃lib : RawData⦄ {H G L K F : Type 0} (name part_number : L → Bytes)
    (check_values : K) where
  -- The selected loads of the wizard. The target sends a status with the code of an acceptance, which
  -- the format can hold. The data loader that receives it, and knows the reception, reports it. The
  -- wizard that is told so, and has not transmitted the selected loads before, sends them, if the
  -- format can hold them and the data loader sent no list, and keeps that it did. The target that
  -- receives the request, with the version of the data loader, calls its handler with the header
  -- file names and the part numbers of these loads.
  pub selected-loads :
      (op later : Target.Operation.Operation H UploadStatus) (host : Host.Operation.Operation)
      (operation : ℕ) (w : Wizard L K)
      → let sent = forced upload_format op.status in
        let loads = map (upload_load name part_number) w.selected in
        StatusRoundTrip.IsStorable
          (record { protocol_version = op.protocol_version; status = sent })
        → sent.status.code ≡ operation_accepted
        → removed operation host.status_operations ≡ 1
        → w.load_list_transmitted ≡ false
        → host.sent ≡ false
        → RequestRoundTrip.IsStorable
            (record { protocol_version = host.protocol_version; loads = loads })
        → later.protocol_version ≡ host.protocol_version
        → (raw_file request_file : Bytes) × (host' : Host.Operation.Operation)
          × (next : Target.Operation.Operation H UploadStatus) × (w' : Wizard L K) × (status_file
                upload_format op
              ≡ (
                next,
                ok (
                    protocol_file_operation upload_status (status_file_completed sent) raw_file op
                    ∷ trigger_timer
                    ∷ []),
              ))
          × (upload_status_completed {H = G} operation true raw_file host ≡ (
            host',
            ok (Host.Operation.call_status sent ∷ Host.Operation.trigger_dlp_timeout 0 host'),
          ))
          × (operation_status {H = G} {F = F} name part_number
                (ok check_values)
                sent
                (with_operation host' w)
              ≡ (
                w',
                ok (
                    host_action (
                      send_file upload_request
                        (text_of (record { target_id = host.target_id; type = upload_request }))
                        request_file)
                    ∷ []),
              ))
          × (w'.load_list_transmitted ≡ true)
          × ((request_file_completed true request_file later).1 ≡ ok (call_load_list loads ∷ []))
  selected-loads op later host operation w stored accepted known new unsent storable same =
      let sent = forced upload_format op.status in
      let loads = map (upload_load name part_number) w.selected in
      let host' : Host.Operation.Operation = record host {
        status_operations = remove operation host.status_operations;
      } in
      let (raw_file, a, b) = deliver {H = H} {G = G} op host operation stored known in
      let (request_file, written, received) =
        RequestRoundTrip.decode-encode_upload_request
          (record { protocol_version = host.protocol_version; loads = loads })
          (record { protocol_version = arinc_615a_34; loads = [] }) storable in
      (
        raw_file,
        request_file,
        host',
        _,
        _,
        a,
        b
            ∙ ap (λ r. (r.0, ok (Host.Operation.call_status sent ∷ r.1)))
                (accepted-switch sent host' accepted),
        wizard-sends name part_number check_values sent host' w request_file accepted new unsent
            written,
        refl,
        file_received-loads loads later request_file (
            received
            ∙ ap (λ version. ok (record { protocol_version = version; loads = loads })) (sym same)),
      )
