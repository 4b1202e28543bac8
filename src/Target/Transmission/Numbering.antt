-- ===== src/Target/Transmission/Numbering.antt =====
-- The status files that an operation of a target sends: their numbers, codes and bytes.
use arinc_615a_gui_tool_suit.Base.{
  ℕ, ◌+◌, ◌%◌, ◌^◌, ◌≡◌, ◌≢◌, refl, sym, ◌∙◌, ap, subst, Bool, true, false, inl, inr, List, [], ◌∷◌,
  Bytes, Bool-cases, Result, ok, err, Error,
}
use arinc_615a_gui_tool_suit.Codes.{
  StatusCode, FinalStatus, operation_accepted, operation_in_progress,
  operation_in_progress_additional_info,
}
use arinc_615a_gui_tool_suit.Status.{increment_counter, set_code, set_status}
use arinc_615a_gui_tool_suit.Tftp.Client.{
  TransferStatus, successful, operation_aborted_by_dlp, operation_aborted_by_operator,
}
use arinc_615a_gui_tool_suit.Target.Operation.{
  status_file_completed, Action, trigger_timer, StatusFormat, Operation, TimerResult, expired,
  operation_cancelled, timer_error, protocol_file_operation, finalise, send_init_file_complete,
  actions_of,
}
use arinc_615a_gui_tool_suit.Target.Transmission.{
  is_invalid, forced, set, accepted_operation, in_progress, finished, status_file, timer_handler,
  status_sent, completed_status, play,
}
use arinc_615a_gui_tool_suit.Target.Transmission.Sent.{
  status_files, Numbered, Numbered-append, status_files-append,
}

module _ {S : Type 0} (format : StatusFormat S) where
  open format use {overall, with_overall, encode_status, overall-with_overall}

  is_invalid-false : (code : StatusCode) → is_invalid code ≡ false → code ≢ StatusCode.invalid
  is_invalid-false StatusCode.invalid h k = cc
  is_invalid-false code h k = cc

  forced_new :
      (status : S)
      → is_invalid (overall status).code ≡ true
      → overall (forced format status) ≡ set_code operation_accepted (overall status)
  forced_new status e = rw e (overall-with_overall _ status)

  forced_old :
      (status : S) → is_invalid (overall status).code ≡ false → forced format status ≡ status
  forced_old status e = rw e

  forced-code : (status : S) → (overall (forced format status)).code ≢ StatusCode.invalid
  unfolding set_code
  forced-code status = elim (Bool-cases (is_invalid (overall status).code)) [
    | inl e ↦ λ h. cc (ap (λ s. s.code) (forced_new status e), h)
    | inr e ↦ λ h. is_invalid-false _ e (ap (λ s. (overall s).code) (sym (forced_old status e)) ∙ h)
  ]

  forced-counter :
      (status : S) → (overall (forced format status)).counter ≡ (overall status).counter
  unfolding set_code
  forced-counter status = elim (Bool-cases (is_invalid (overall status).code)) [
    | inl e ↦ ap (λ s. s.counter) (forced_new status e)
    | inr e ↦ ap (λ s. (overall s).counter) (forced_old status e)
  ]

  module _ {H : Type 0} where
    abbrev pub counter_of : Operation H S → ℕ
    counter_of op = (overall op.status).counter

    -- A step sends files that are numbered from the counter before to the counter after it.
    pub record Numbers (op : Operation H S) (op' : Operation H S) (actions : List (Action H S))
        : Type 0 where
      pub version : op'.protocol_version ≡ op.protocol_version
      pub files :
          Numbered format op.protocol_version
            (counter_of op)
            (status_files actions)
            (counter_of op')

    -- The two ends of `status_file`.
    pub status_file-ok :
        (op : Operation H S) (raw_file : Bytes)
        → encode_status op.protocol_version (forced format op.status) ≡ ok raw_file
        → status_file format op ≡ (
          record op {
            status =
                with_overall
                  (increment_counter (overall (forced format op.status)))
                  (forced format op.status);
            status_operation = true;
          },
          ok (
              protocol_file_operation format.status_type
                (status_file_completed (forced format op.status))
                raw_file
                op
              ∷ trigger_timer
              ∷ []),
        )
    unfolding status_file
    status_file-ok op raw_file e = rw (e, status_file)

    pub status_file-err :
        (op : Operation H S) (e : Error)
        → encode_status op.protocol_version (forced format op.status) ≡ err e
        → status_file format op ≡ (record op { status = forced format op.status }, err e)
    unfolding status_file
    status_file-err op e h = rw (h, status_file)

    pub status_file-Numbers :
        (op : Operation H S)
        → Numbers op (status_file format op).0 (actions_of (status_file format op).1)
    unfolding status_files protocol_file_operation increment_counter
    status_file-Numbers op = go (encode_status op.protocol_version (forced format op.status)) refl
      where
        counted :
            (overall (
              with_overall
                (increment_counter (overall (forced format op.status)))
                (forced format op.status))).counter
            ≡ (counter_of op + 1) % 2 ^ 16
        counted =
            ap (λ s. s.counter) (overall-with_overall _ _)
            ∙ ap (λ n. (n + 1) % 2 ^ 16) (forced-counter op.status)

        go :
            (result : Result Bytes)
            → encode_status op.protocol_version (forced format op.status) ≡ result
            → Numbers op (status_file format op).0 (actions_of (status_file format op).1)
        go (err e) h =
            rw (status_file-err op e h)
              (record { version = refl; files = forced-counter op.status })
        go (ok raw_file) h = rw (status_file-ok op raw_file h) (record {
          version = refl;
          files = (forced-counter op.status, forced-code op.status, h, counted);
        })

    -- A step that sends no status file and leaves the counter alone.
    pub quiet :
        (op op' : Operation H S) (actions : List (Action H S))
        → op'.protocol_version ≡ op.protocol_version
        → status_files actions ≡ []
        → counter_of op' ≡ counter_of op
        → Numbers op op' actions
    quiet op op' actions version none' counter = record {
      version = version;
      files = rw none' counter;
    }

    set-counter :
        (code : StatusCode) (description : Bytes) (time : ℕ) (op : Operation H S)
        → counter_of (set format code description time op) ≡ counter_of op
    unfolding set set_status
    set-counter code description time op = ap (λ s. s.counter) (overall-with_overall _ op.status)

    set-version :
        (code : StatusCode) (description : Bytes) (time : ℕ) (op : Operation H S)
        → (set format code description time op).protocol_version ≡ op.protocol_version
    unfolding set
    set-version code description time op = refl

    pub set-Numbers :
        (code : StatusCode) (description : Bytes) (time : ℕ) (op : Operation H S)
        (actions : List (Action H S))
        → status_files actions ≡ []
        → Numbers op (set format code description time op) actions
    set-Numbers code description time op actions h =
        quiet op _ actions (set-version code description time op) h
          (set-counter code description time op)

    -- A status that is set before a step does not change its numbers.
    pub set_then :
        (code : StatusCode) (description : Bytes) (time : ℕ) (op op' : Operation H S)
        (actions : List (Action H S))
        → Numbers (set format code description time op) op' actions
        → Numbers op op' actions
    set_then code description time op op' actions h = record {
      version = h.version ∙ set-version code description time op;
      files =
          subst
            (λ version.
              Numbered format version (counter_of op) (status_files actions) (counter_of op'))
            (set-version code description time op)
            (subst
              (λ n.
                Numbered format (set format code description time op).protocol_version n
                  (status_files actions) (counter_of op'))
              (set-counter code description time op) h.files);
    }

    pub accepted_operation-Numbers :
        (op : Operation H S) → let r = accepted_operation format op in Numbers op r.0 r.1
    unfolding accepted_operation status_files
    accepted_operation-Numbers op = set-Numbers _ _ _ op _ refl

    pub in_progress-Numbers :
        (immediate : Bool) (time : ℕ) (description : Bytes) (op : Operation H S)
        → let r = in_progress format immediate time description op in Numbers op r.0 r.1
    unfolding in_progress status_files
    in_progress-Numbers true time description op = set-Numbers _ _ _ op _ refl
    in_progress-Numbers false time description op = set-Numbers _ _ _ op _ refl

    pub finished-Numbers :
        (final : FinalStatus) (description : Bytes) (op : Operation H S)
        → let r = finished format final description op in Numbers op r.0 r.1
    unfolding finished status_files
    finished-Numbers final description op = set-Numbers _ _ _ op _ refl

    pub send_init_file_complete-Numbers :
        (done : Bool) (op : Operation H S)
        → let r = send_init_file_complete done op in Numbers op r.0 r.1
    unfolding send_init_file_complete finalise status_files
    send_init_file_complete-Numbers true op = quiet _ _ _ refl refl refl
    send_init_file_complete-Numbers false op = quiet _ _ _ refl refl refl

    pub timer_handler-Numbers :
        (result : TimerResult) (op : Operation H S)
        → let r = timer_handler format result op in Numbers op r.0 (actions_of r.1)
    unfolding timer_handler status_files
    timer_handler-Numbers operation_cancelled op = quiet _ _ _ refl refl refl
    timer_handler-Numbers timer_error op = status_file-Numbers op
    timer_handler-Numbers expired op = status_file-Numbers op

    -- What the two `switch` statements leave alone.
    IsQuiet : Operation H S → Operation H S × List (Action H S) → Type 0
    IsQuiet op r =
        (r.0.protocol_version ≡ op.protocol_version)
        × (status_files r.1 ≡ [])
        × (counter_of r.0 ≡ counter_of op)

    status_sent-IsQuiet :
        (sent : S) (code : StatusCode) (op : Operation H S)
        → IsQuiet op (status_sent format sent code op)
    unfolding IsQuiet status_sent finalise status_files
    status_sent-IsQuiet sent operation_accepted op = (refl, refl, refl)
    status_sent-IsQuiet sent operation_in_progress op = (refl, refl, refl)
    status_sent-IsQuiet sent operation_in_progress_additional_info op = (refl, refl, refl)
    status_sent-IsQuiet sent _ op = (refl, refl, refl)

    pub completed_status-Numbers :
        (sent : S) (transfer : TransferStatus) (op : Operation H S)
        → let r = completed_status format sent transfer op in Numbers op r.0 r.1
    unfolding completed_status IsQuiet finalise status_files
    completed_status-Numbers sent successful op =
        let (version, none', counter) =
          status_sent-IsQuiet sent (overall sent).code (record op { status_operation = false }) in
        quiet _ _ _ version none' counter
    completed_status-Numbers sent operation_aborted_by_dlp op = quiet _ _ _ refl refl refl
    completed_status-Numbers sent operation_aborted_by_operator op = quiet _ _ _ refl refl refl
    completed_status-Numbers sent _ op = quiet _ _ _ refl refl refl

    module _ {E : Type 0} (handle : E → Operation H S → Operation H S × Result (List (Action H S)))
        (step : (event : E) (op : Operation H S)
          → Numbers op (handle event op).0 (actions_of (handle event op).1)) where
      -- If every event numbers its files, so does a series of events.
      pub play-Numbers :
          (events : List E) (op : Operation H S)
          → let r = play handle events op in Numbers op r.0 r.1
      unfolding play status_files
      play-Numbers [] op = quiet op op [] refl refl refl
      play-Numbers (event ∷ events) op =
          let (next, result) = handle event op in
          let first = step event op in
          let others = play-Numbers events next in
          record {
            version = others.version ∙ first.version;
            files = rw (status_files-append (actions_of result) (play handle events next).1) (
                Numbered-append format op.protocol_version (counter_of op) (counter_of next) _
                  (status_files (actions_of result)) (status_files (play handle events next).1)
                  first.files
                  (subst
                    (λ version.
                      Numbered format version (counter_of next)
                        (status_files (play handle events next).1)
                        (counter_of (play handle events next).0))
                    first.version others.files));
          }
