-- ===== src/Loader/Upload/Once.antt =====
-- The selected loads are transmitted once, with the first status that accepts the upload.
use arinc_615a_gui_tool_suit.Base.{
  ◌≡◌, refl, ◌∙◌, Bool, true, false, not, ◌&&◌, ◌||◌, inl, inr, Bool-cases, List, [], ◌∷◌, ◌++◌,
  Bytes, append-nil, if◌then◌else◌, Result, ok, err,
}
use arinc_615a_gui_tool_suit.RawData.{RawData}
use arinc_615a_gui_tool_suit.Status.{UploadStatus}
use arinc_615a_gui_tool_suit.Loader.Signals.{Action}
use arinc_615a_gui_tool_suit.Loader.Upload.{
  Upload, Wizard, is_accepted, transmit_loads, operation_status,
}

-- Whether one of the statuses accepts the upload.
abbrev pub any_accepted : List UploadStatus → Bool
any_accepted [] = false
any_accepted (status ∷ statuses) = is_accepted status.status.code || any_accepted statuses

absorbed : (b : Bool) → b && false ≡ false
absorbed true = refl
absorbed false = refl

module _ ⦃lib : RawData⦄ {H L K F : Type 0} (name part_number : L → Bytes) (check_values : K) where
  abbrev actions_of : Result (List (Action H UploadStatus F)) → List (Action H UploadStatus F)
  actions_of (ok actions) = actions
  actions_of (err e) = []

  -- The statuses that the wizard receives, one after the other.
  pub receive : List UploadStatus → Wizard L K → Wizard L K × List (Action H UploadStatus F)
  receive [] w = (w, [])
  receive (status ∷ statuses) w =
      let (next, result) = operation_status {F = F} name part_number (ok check_values) status w in
      let (last, more) = receive statuses next in (last, actions_of result ++ more)

  ignored :
      (status : UploadStatus) (w : Wizard L K)
      → is_accepted status.status.code && not w.load_list_transmitted ≡ false
      → operation_status {H = H} {F = F} name part_number (ok check_values) status w ≡ (w, ok [])
  unfolding operation_status
  ignored status w h = rw h refl

  transmits :
      (status : UploadStatus) (w : Wizard L K) (u : Upload L K)
      (actions : List (Action H UploadStatus F))
      → is_accepted status.status.code ≡ true
      → w.load_list_transmitted ≡ false
      → transmit_loads name part_number (ok check_values) w.selected w.upload ≡ (u, ok actions)
      → operation_status name part_number (ok check_values) status w
        ≡ (record w { upload = u; load_list_transmitted = true }, ok actions)
  unfolding operation_status
  transmits status w u actions a h e = rw (a, h, e) refl

  receive-ignored :
      (status : UploadStatus) (statuses : List UploadStatus) (w : Wizard L K)
      → is_accepted status.status.code && not w.load_list_transmitted ≡ false
      → receive (status ∷ statuses) w ≡ receive statuses w
  unfolding receive
  receive-ignored status statuses w h = rw (ignored status w h) refl

  already :
      (statuses : List UploadStatus) (w : Wizard L K)
      → w.load_list_transmitted ≡ true
      → receive statuses w ≡ (w, [])
  unfolding receive
  already [] w h = refl
  already (status ∷ statuses) w h =
      receive-ignored status statuses w (rw h (absorbed _)) ∙ already statuses w h

  -- Whatever statuses the wizard receives: if one of them accepts the upload, the selected loads are
  -- transmitted once, and otherwise nothing is done. The loads were not transmitted before, and
  -- their transmission throws nothing.
  pub receive-once :
      (statuses : List UploadStatus) (w : Wizard L K) (u : Upload L K)
      (actions : List (Action H UploadStatus F))
      → w.load_list_transmitted ≡ false
      → transmit_loads name part_number (ok check_values) w.selected w.upload ≡ (u, ok actions)
      → receive statuses w ≡ (
          if any_accepted statuses
          then (record w { upload = u; load_list_transmitted = true }, actions)
          else (w, []))
  unfolding receive
  receive-once [] w u actions h e = refl
  receive-once (status ∷ statuses) w u actions h e =
      elim (Bool-cases (is_accepted status.status.code)) [
        | inl a ↦ rw (transmits status w u actions a h e) (
            rw
              (
                already statuses (record w { upload = u; load_list_transmitted = true }) refl,
                a,
                append-nil actions,
              )
              refl)
        | inr a ↦ rw (ignored status w (rw a refl), a) (receive-once statuses w u actions h e)
      ]
