-- ===== src/Target/Download/Entries.antt =====
-- The changes of the status of a download by the user send no status file.
use arinc_615a_gui_tool_suit.Base.{ℕ, ◌≡◌, refl, ap, Bool, true, false, [], Bytes}
use arinc_615a_gui_tool_suit.RawData.{RawData}
use arinc_615a_gui_tool_suit.Status.{DownloadStatus, set_status}
use arinc_615a_gui_tool_suit.Target.Operation.{Operation}
use arinc_615a_gui_tool_suit.Target.Transmission.Sent.{status_files}
use arinc_615a_gui_tool_suit.Target.Transmission.Numbering.{Numbers, quiet}
use arinc_615a_gui_tool_suit.Target.Download.{download_format, in_progress_ratio, change_status}

module _ {H : Type 0} ⦃lib : RawData⦄ where
  pub change_status-Numbers :
      (change : DownloadStatus → DownloadStatus) (op : Operation H DownloadStatus)
      → (change op.status).status ≡ op.status.status
      → Numbers download_format op (change_status change op) []
  unfolding change_status status_files
  change_status-Numbers change op h = quiet download_format _ _ _ refl refl (ap (λ s. s.counter) h)

  pub in_progress_ratio-Numbers :
      (immediate : Bool) (time : ℕ) (description : Bytes) (ratio : ℕ)
      (op : Operation H DownloadStatus)
      → let r = in_progress_ratio immediate time description ratio op in
        Numbers download_format op r.0 r.1
  unfolding in_progress_ratio set_status status_files
  in_progress_ratio-Numbers true time description ratio op =
      quiet download_format _ _ _ refl refl refl
  in_progress_ratio-Numbers false time description ratio op =
      quiet download_format _ _ _ refl refl refl
