-- ===== src/Exchange/Requests.antt =====
-- The start of an upload and the list of its loads: the initialization file goes from the target to
-- the data loader, and the request file back.
use arinc_615a_gui_tool_suit.Base.{
  ℕ, ◌≡◌, refl, ◌∙◌, sym, ap, ==_refl, true, false, Option, none, some, List, [], ◌∷◌, Bytes, ok,
  arith,
}
use arinc_615a_gui_tool_suit.RawData.{RawData}
use arinc_615a_gui_tool_suit.Codes.{Version, arinc_615a_34, version_code, accepted}
use arinc_615a_gui_tool_suit.Status.{UploadStatus}
use arinc_615a_gui_tool_suit.Files.ProtocolFilename.{upload_request, text_of}
use arinc_615a_gui_tool_suit.Files.InitializationFile
use arinc_615a_gui_tool_suit.Files.InitializationFile.RoundTrip.{decode-encode_initialization}
use arinc_615a_gui_tool_suit.Files.Upload.RequestFile.{UploadLoad}
use arinc_615a_gui_tool_suit.Files.Upload.RequestFile
use arinc_615a_gui_tool_suit.Files.Upload.RequestFile.RoundTrip.{
  IsStorable, decode-encode_upload_request,
}
use arinc_615a_gui_tool_suit.Tftp.Client.{successful}
use arinc_615a_gui_tool_suit.Target.Operation.{start, send_initialization, call_load_list}
use arinc_615a_gui_tool_suit.Target
use arinc_615a_gui_tool_suit.Target.Requests.{same_version, file_decoded, file_received}
use arinc_615a_gui_tool_suit.Target.Upload.{request_file_completed}
use arinc_615a_gui_tool_suit.Host.Operation.{
  initialisation_file_completed, initialisation_decoded, respond, send_file,
  call_initialisation_response, start_timer, max,
}
use arinc_615a_gui_tool_suit.Host
use arinc_615a_gui_tool_suit.Host.Upload.{load_list}

abbrev acceptance : Version → InitializationFile.InitializationFile
acceptance version = record {
  protocol_version = version;
  response = record { code = accepted; description = [] };
}

same_version_refl : (version : Version) → same_version version version ≡ true
unfolding same_version
same_version_refl version = ==_refl (version_code version)

module _ ⦃lib : RawData⦄ {H : Type 0} where
  start-accepted :
      (remote : H) (port : Option ℕ) (op : Target.Operation.Operation H UploadStatus)
      (raw_file : Bytes)
      → InitializationFile.encode (acceptance op.protocol_version) ≡ ok raw_file
      → start remote port op ≡ (
        record op {
          host_address = some remote;
          host_port = elim port [ none ↦ op.host_port | some p ↦ p ];
          initialisation_operation = true;
        },
        ok (send_initialization raw_file ∷ []),
      )
  unfolding start
  start-accepted remote port op raw_file e = rw (e, start)

  pub file_received-loads :
      (loads : List UploadLoad) (op : Target.Operation.Operation H UploadStatus) (raw_file : Bytes)
      → RequestFile.decode (record { protocol_version = arinc_615a_34; loads = [] }) raw_file
        ≡ ok (record { protocol_version = op.protocol_version; loads = loads })
      → (request_file_completed true raw_file op).1 ≡ ok (call_load_list loads ∷ [])
  unfolding file_received file_decoded
  file_received-loads loads op raw_file read = rw read (rw (same_version_refl op.protocol_version))

module _ ⦃lib : RawData⦄ {G : Type 0} where
  initialisation-accepted :
      (version : Version) (host : Host.Operation.Operation) (raw_file : Bytes)
      → InitializationFile.decode raw_file ≡ ok (acceptance version)
      → initialisation_file_completed {H = G} {S = UploadStatus} successful raw_file host ≡ (
        record host { initialisation_operation = false; protocol_version = version },
        ok (
            call_initialisation_response (acceptance version).response
            ∷ start_timer (max 0 host.dlp_timeout)
            ∷ []),
      )
  unfolding initialisation_file_completed initialisation_decoded respond
  initialisation-accepted version host raw_file e = rw e

  pub load_list-sent :
      (loads : List UploadLoad) (host : Host.Operation.Operation) (raw_file : Bytes)
      → host.sent ≡ false
      → RequestFile.encode (record { protocol_version = host.protocol_version; loads = loads })
        ≡ ok raw_file
      → load_list {H = G} loads host ≡ (
        record host { file_operation = true },
        ok (
            send_file upload_request
              (text_of (record { target_id = host.target_id; type = upload_request }))
              raw_file
            ∷ []),
      )
  unfolding load_list
  load_list-sent loads host raw_file unsent e = simp (unsent, e, load_list)

-- The start of an upload and its load list. The target, with a supported version, answers the start
-- with an initialization file; the data loader that receives it reports the acceptance, takes the
-- version over and starts its timeout. Its user sends a list of loads that the format can hold, for
-- the first time: the data loader sends a request file. The target that receives it, still with the
-- same version, calls its handler with the same loads.
pub upload-begins :
    ⦃lib : RawData⦄ {H G : Type 0} (remote : H) (port : Option ℕ) (loads : List UploadLoad)
    (op later : Target.Operation.Operation H UploadStatus) (host : Host.Operation.Operation)
    → IsStorable (record { protocol_version = op.protocol_version; loads = loads })
    → host.sent ≡ false
    → later.protocol_version ≡ op.protocol_version
    → (init_file request_file : Bytes) × (op' : Target.Operation.Operation H UploadStatus)
      × (host' : Host.Operation.Operation) × (start remote port op
          ≡ (op', ok (send_initialization init_file ∷ [])))
      × (initialisation_file_completed {H = G} {S = UploadStatus} successful init_file host ≡ (
        host',
        ok (
            call_initialisation_response (record { code = accepted; description = [] })
            ∷ start_timer (max 0 host.dlp_timeout)
            ∷ []),
      ))
      × (host'.protocol_version ≡ op.protocol_version)
      × ((load_list {H = G} loads host').1
          ≡ ok (
              send_file upload_request
                (text_of (record { target_id = host.target_id; type = upload_request }))
                request_file
              ∷ []))
      × ((request_file_completed true request_file later).1 ≡ ok (call_load_list loads ∷ []))
upload-begins remote port loads op later host stored unsent same =
    let (init_file, written, read) =
      decode-encode_initialization (acceptance op.protocol_version) (record {
        supported = stored.supported;
        code = λ e. cc;
        description = (tt, omega arith);
      }) in
    let (request_file, sent, received) =
      decode-encode_upload_request
        (record { protocol_version = op.protocol_version; loads = loads })
        (record { protocol_version = arinc_615a_34; loads = [] }) stored in
    let host' : Host.Operation.Operation = record host {
      initialisation_operation = false;
      protocol_version = op.protocol_version;
    } in
    (
      init_file,
      request_file,
      _,
      host',
      start-accepted remote port op init_file written,
      initialisation-accepted op.protocol_version host init_file read,
      refl,
      ap (λ r. r.1) (load_list-sent loads host' request_file unsent sent),
      file_received-loads loads later request_file (
          received
          ∙ ap (λ version. ok (record { protocol_version = version; loads = loads })) (sym same)),
    )
