-- ===== src/Target/Transmission/Sent.antt =====
-- The status files among the actions of a target, and what it means that they are numbered.
use arinc_615a_gui_tool_suit.Base.{
  ℕ, ◌+◌, ◌%◌, ◌^◌, ◌≡◌, ◌≢◌, refl, sym, ◌∙◌, ap, subst, append_assoc, List, [], ◌∷◌, ◌++◌, Bytes,
  ok,
}
use arinc_615a_gui_tool_suit.Codes.{Version, StatusCode}
use arinc_615a_gui_tool_suit.Target.Operation.{
  Completion, status_file_completed, downloading_list_completed, target_information_completed,
  Action, send_file, send_initialization, receive_file, answer_error, trigger, trigger_timer,
  cancel_timer, call_initialised, call_status, call_abort_request, call_finished, call_load_list,
  call_downloading_request, call_downloading_answer, throw_error, StatusFormat,
}

abbrev file_of : {S : Type 0} → Completion S → Bytes → List (S × Bytes)
file_of (status_file_completed sent) raw_file = (sent, raw_file) ∷ []
file_of downloading_list_completed raw_file = []
file_of target_information_completed raw_file = []

module _ {H S : Type 0} where
  -- The status files among actions, each with the status that its completion will report.
  unfoldable pub status_files : List (Action H S) → List (S × Bytes)
  status_files [] = []
  status_files (send_file type handle_abort name raw_file completion ∷ actions) =
      file_of completion raw_file ++ status_files actions
  status_files (send_initialization raw_file ∷ actions) = status_files actions
  status_files (receive_file type ∷ actions) = status_files actions
  status_files (answer_error remote error ∷ actions) = status_files actions
  status_files (trigger ∷ actions) = status_files actions
  status_files (trigger_timer ∷ actions) = status_files actions
  status_files (cancel_timer ∷ actions) = status_files actions
  status_files (call_initialised ∷ actions) = status_files actions
  status_files (call_status status ∷ actions) = status_files actions
  status_files (call_abort_request request ∷ actions) = status_files actions
  status_files (call_finished final description ∷ actions) = status_files actions
  status_files (call_load_list loads ∷ actions) = status_files actions
  status_files (call_downloading_request files data' ∷ actions) = status_files actions
  status_files (call_downloading_answer files ∷ actions) = status_files actions
  status_files (throw_error error ∷ actions) = status_files actions

  pub status_files-append :
      (xs ys : List (Action H S)) → status_files (xs ++ ys) ≡ status_files xs ++ status_files ys
  unfolding status_files
  status_files-append [] ys = refl
  status_files-append (send_file type handle_abort name raw_file completion ∷ xs) ys =
      ap (λ files. file_of completion raw_file ++ files) (status_files-append xs ys)
      ∙ sym (append_assoc (file_of completion raw_file) (status_files xs) (status_files ys))
  status_files-append (send_initialization raw_file ∷ xs) ys = status_files-append xs ys
  status_files-append (receive_file type ∷ xs) ys = status_files-append xs ys
  status_files-append (answer_error remote error ∷ xs) ys = status_files-append xs ys
  status_files-append (trigger ∷ xs) ys = status_files-append xs ys
  status_files-append (trigger_timer ∷ xs) ys = status_files-append xs ys
  status_files-append (cancel_timer ∷ xs) ys = status_files-append xs ys
  status_files-append (call_initialised ∷ xs) ys = status_files-append xs ys
  status_files-append (call_status status ∷ xs) ys = status_files-append xs ys
  status_files-append (call_abort_request request ∷ xs) ys = status_files-append xs ys
  status_files-append (call_finished final description ∷ xs) ys = status_files-append xs ys
  status_files-append (call_load_list loads ∷ xs) ys = status_files-append xs ys
  status_files-append (call_downloading_request files data' ∷ xs) ys = status_files-append xs ys
  status_files-append (call_downloading_answer files ∷ xs) ys = status_files-append xs ys
  status_files-append (throw_error error ∷ xs) ys = status_files-append xs ys

module _ {S : Type 0} (format : StatusFormat S) where
  open format use {overall, encode_status}

  -- From one value of the counter to another: each file carries the next number, modulo 2 ^ 16, a
  -- code other than the invalid one, and the encoding of its status.
  abbrev pub Numbered : Version → ℕ → List (S × Bytes) → ℕ → Type 0
  Numbered version counter [] next = next ≡ counter
  Numbered version counter ((sent, raw_file) ∷ files) next =
      ((overall sent).counter ≡ counter)
      × ((overall sent).code ≢ StatusCode.invalid)
      × (encode_status version sent ≡ ok raw_file)
      × Numbered version ((counter + 1) % 2 ^ 16) files next

  pub Numbered-append :
      (version : Version) (c d e : ℕ) (xs ys : List (S × Bytes))
      → Numbered version c xs d
      → Numbered version d ys e
      → Numbered version c (xs ++ ys) e
  Numbered-append version c d e [] ys h k = subst (λ n. Numbered version n ys e) h k
  Numbered-append version c d e ((sent, raw_file) ∷ xs) ys h k =
      (h.0, h.1, h.2, Numbered-append version ((c + 1) % 2 ^ 16) d e xs ys h.3 k)
