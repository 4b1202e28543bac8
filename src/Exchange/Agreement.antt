-- ===== src/Exchange/Agreement.antt =====
-- A target and a data loader draw the same conclusion from a status.
use arinc_615a_gui_tool_suit.Base.{
  ℕ, ◌≡◌, ◌≢◌, refl, ap, true, false, Option, none, some, List, [], ◌∷◌, Bytes, ok,
}
use arinc_615a_gui_tool_suit.Codes.{
  StatusCode, FinalStatus, final_status, load_part_number_or_download_file_failed,
  operation_deferred, invalid,
}
use arinc_615a_gui_tool_suit.Tftp.Client.{successful}
use arinc_615a_gui_tool_suit.Target.Operation.{StatusFormat}
use arinc_615a_gui_tool_suit.Target
use arinc_615a_gui_tool_suit.Target.Transmission.{status_sent, completed_status}
use arinc_615a_gui_tool_suit.Host.Status.{
  StatusSource, remove, removed, status_switch, status_decoded, status_received,
  status_file_completed,
}
use arinc_615a_gui_tool_suit.Host

-- How an operation is finished by the first action that does it, if one does.
abbrev pub target_finish :
    {H S : Type 0} → List (Target.Operation.Action H S) → Option (FinalStatus × Bytes)
target_finish [] = none
target_finish (Target.Operation.call_finished final description ∷ actions) =
    some (final, description)
target_finish (_ ∷ actions) = target_finish actions

abbrev pub host_finish :
    {H S : Type 0} → List (Host.Operation.Action H S) → Option (StatusCode × Bytes)
host_finish [] = none
host_finish (Host.Operation.call_finished code description ∷ actions) = some (code, description)
host_finish (_ ∷ actions) = host_finish actions

-- The code of a data loader as the final status of a target.
abbrev pub as_final : Option (StatusCode × Bytes) → Option (FinalStatus × Bytes)
as_final none = none
as_final (some finish) = some (final_status finish.0, finish.1)

module _ {G S : Type 0} (source : StatusSource S) where
  -- What the data loader does with a status file that it decodes.
  pub status_received-ok :
      (sent : S) (raw_file : Bytes) (operation : ℕ) (host : Host.Operation.Operation)
      → source.decode_status raw_file ≡ ok sent
      → removed operation host.status_operations ≡ 1
      → let known : Host.Operation.Operation = record host {
        status_operations = remove operation host.status_operations;
      } in
        let r = status_switch {H = G} source sent (source.overall sent).code known in
        status_file_completed {H = G} source operation true raw_file host
        ≡ (r.0, ok (Host.Operation.call_status sent ∷ r.1))
  unfolding status_file_completed status_received status_decoded
  status_received-ok sent raw_file operation host read known = rw known (rw read refl)

module _ {H S : Type 0} (format : StatusFormat S) where
  -- What the target does with the report that the file was received.
  completed_status-ok :
      (sent : S) (op : Target.Operation.Operation H S)
      → let r =
          status_sent format sent
            (format.overall sent).code
            (record op { status_operation = false }) in
        completed_status format sent successful op ≡ (r.0, Target.Operation.call_status sent ∷ r.1)
  unfolding completed_status
  completed_status-ok sent op = refl

module _ {H : Type 0} (G : Type 0) {S : Type 0} (format : StatusFormat S)
    (source : StatusSource S) where
  switch-agree :
      (status : S) (code : StatusCode) (op : Target.Operation.Operation H S)
      (host : Host.Operation.Operation)
      → source.overall status ≡ format.overall status
      → code ≢ load_part_number_or_download_file_failed
      → code ≢ operation_deferred
      → code ≢ invalid
      → target_finish (status_sent format status code op).1
        ≡ as_final (host_finish (status_switch {H = G} source status code host).1)
  unfolding status_sent status_switch Target.Operation.finalise Host.Operation.finished final_status
  switch-agree status StatusCode.operation_accepted op host e h k l = refl
  switch-agree status StatusCode.operation_in_progress op host e h k l = refl
  switch-agree status StatusCode.operation_in_progress_additional_info op host e h k l = refl
  switch-agree status load_part_number_or_download_file_failed op host e h k l = absurd (h refl)
  switch-agree status operation_deferred op host e h k l = absurd (k refl)
  switch-agree status invalid op host e h k l = absurd (l refl)
  switch-agree status StatusCode.operation_not_accepted op host e h k l = rw e
  switch-agree status StatusCode.operation_not_supported op host e h k l = rw e
  switch-agree status StatusCode.operation_completed op host e h k l = rw e
  switch-agree status StatusCode.operation_aborted_by_target_hw op host e h k l = rw e
  switch-agree status StatusCode.operation_aborted_by_dlp op host e h k l = rw e
  switch-agree status StatusCode.operation_aborted_by_operator op host e h k l = rw e

  -- A status that the data loader decodes: both report it to their handlers, and the data loader
  -- finishes exactly if the target does, with a code of the same final status and with the same
  -- description.
  pub report-agree :
      (sent : S) (raw_file : Bytes) (operation : ℕ) (host : Host.Operation.Operation)
      (op : Target.Operation.Operation H S)
      → source.decode_status raw_file ≡ ok sent
      → source.overall sent ≡ format.overall sent
      → (format.overall sent).code ≢ load_part_number_or_download_file_failed
      → (format.overall sent).code ≢ operation_deferred
      → (format.overall sent).code ≢ invalid
      → removed operation host.status_operations ≡ 1
      → (host' : Host.Operation.Operation) × (actions : List (Host.Operation.Action G S))
        × (op' : Target.Operation.Operation H S) × (others : List (Target.Operation.Action H S))
        × (status_file_completed source operation true raw_file host
            ≡ (host', ok (Host.Operation.call_status sent ∷ actions)))
        × (completed_status format sent successful op
            ≡ (op', Target.Operation.call_status sent ∷ others))
        × (target_finish others ≡ as_final (host_finish actions))
  report-agree sent raw_file operation host op read same h k l known =
      let code : (source.overall sent).code ≡ (format.overall sent).code = ap (λ s. s.code) same in
      (
        _,
        _,
        _,
        _,
        status_received-ok source sent raw_file operation host read known,
        completed_status-ok format sent op,
        rw code (switch-agree sent (format.overall sent).code _ _ same h k l),
      )
