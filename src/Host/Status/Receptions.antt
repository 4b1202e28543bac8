-- ===== src/Host/Status/Receptions.antt =====
-- The receptions of status files that a data loader keeps.
use arinc_615a_gui_tool_suit.Base.{
  ℕ, suc, ◌+◌, ◌==◌, ◌≡◌, ◌≤◌, refl, sym, subst, Bool, true, false, inl, inr, Bool-cases, none,
  some, List, [], ◌∷◌, Bytes, if◌then◌else◌, Result, ok, err, arinc_615a_exception, arith,
}
use arinc_615a_gui_tool_suit.Codes.{
  StatusCode, operation_aborted_by_dlp, operation_accepted, operation_in_progress,
  operation_in_progress_additional_info,
}
use arinc_615a_gui_tool_suit.Host.Operation.{
  Operation, no_abort, send_abort, reason_code, trigger_dlp_timeout, is_no_abort, finished,
  is_aborted,
}
use arinc_615a_gui_tool_suit.Host.Status.{
  StatusSource, remove, removed, status_file_request, status_switch, status_decoded,
  status_received, status_file_completed,
}

-- No reception is kept twice, and none has a number that is still to be given.
pub record IsConsistent (op : Operation) : Type 0 where
  pub once : (o : ℕ) → removed o op.status_operations ≤ 1
  pub fresh : (o : ℕ) → op.next_operation ≤ o → removed o op.status_operations ≡ 0

removed-cons :
    (o n : ℕ) (ns : List ℕ)
    → removed o (n ∷ ns) ≡ (if n == o then suc (removed o ns) else removed o ns)
removed-cons o n ns = refl

pub removed-remove :
    (o p : ℕ) (ns : List ℕ) → removed o (remove p ns) ≡ (if p == o then 0 else removed o ns)
removed-remove o p [] = ground arith
removed-remove o p (n ∷ ns) = ground (arith, removed-remove o p ns)

-- The parts of an operation that the receptions depend on.
abbrev pub SameReceptions : Operation → Operation → Type 0
SameReceptions op op' =
    (op'.status_operations ≡ op.status_operations) × (op'.next_operation ≡ op.next_operation)

Same-IsConsistent :
    {op op' : Operation} → SameReceptions op op' → IsConsistent op → IsConsistent op'
Same-IsConsistent {op} {op'} same h = record {
  once = λ o. subst (λ ns. removed o ns ≤ 1) (sym same.0) (h.once o);
  fresh =
      λ o le. subst (λ ns. removed o ns ≡ 0) (sym same.0) (h.fresh o (omega (arith, same.1, le)));
}

abbrev begun : Operation → Operation
begun op = record op {
  status_operations = op.next_operation ∷ op.status_operations;
  next_operation = op.next_operation + 1;
}

begun-IsConsistent : (op : Operation) → IsConsistent op → IsConsistent (begun op)
begun-IsConsistent op h = record {
  once = λ o. ground (arith, h.once o, h.fresh o);
  fresh = λ o le. ground (arith, h.fresh o);
}

abbrev known : ℕ → Operation → Operation
known operation op = record op { status_operations = remove operation op.status_operations }

known-IsConsistent : (o : ℕ) (op : Operation) → IsConsistent op → IsConsistent (known o op)
known-IsConsistent o op h = record {
  once = λ p. ground (arith, removed-remove p o op.status_operations, h.once p);
  fresh = λ p le. ground (arith, removed-remove p o op.status_operations, h.fresh p);
}

module _ {H : Type 0} (S : Type 0) (remote : H) (op : Operation) where
  pub is_aborted_idle : is_no_abort op.abort_reason ≡ true → is_aborted {S = S} remote op ≡ none
  unfolding is_aborted
  is_aborted_idle e = rw e

  pub is_aborted-some :
      is_no_abort op.abort_reason ≡ false
      → is_aborted {S = S} remote op
        ≡ some (
          record op { abort_reason = no_abort },
          send_abort remote (reason_code op.abort_reason) ∷ trigger_dlp_timeout 0 op,
        )
  unfolding is_aborted
  is_aborted-some e = ground (arith, e)

  -- A request of a status file keeps the receptions apart.
  pub status_file_request-IsConsistent :
      IsConsistent op → IsConsistent (status_file_request {S = S} remote op).0
  unfolding status_file_request
  status_file_request-IsConsistent h = elim (Bool-cases (is_no_abort op.abort_reason)) [
    | inl e ↦ rw (is_aborted_idle e, status_file_request) (begun-IsConsistent op h)
    | inr e ↦ rw (is_aborted-some e, status_file_request) (Same-IsConsistent (refl, refl) h)
  ]

pub empty-IsConsistent : (op : Operation) → op.status_operations ≡ [] → IsConsistent op
empty-IsConsistent op h = record {
  once = λ o. subst (λ ns. removed o ns ≤ 1) (sym h) (omega arith);
  fresh = λ o le. subst (λ ns. removed o ns ≡ 0) (sym h) refl;
}

module _ (H : Type 0) {S : Type 0} (source : StatusSource S)
    (mark_same : (op : Operation) → SameReceptions op (source.mark op)) where
  switch_same :
      (status : S) (code : StatusCode) (op : Operation)
      → SameReceptions op (status_switch {H = H} source status code op).0
  unfolding status_switch finished
  switch_same status operation_accepted op = mark_same op
  switch_same status operation_in_progress op = mark_same op
  switch_same status operation_in_progress_additional_info op = mark_same op
  switch_same status _ op = (refl, refl)

  received_same :
      (done : Bool) (raw_file : Bytes) (op : Operation)
      → SameReceptions op (status_received {H = H} source done raw_file op).0
  unfolding status_received status_decoded finished
  received_same false raw_file op = (refl, refl)
  received_same true raw_file op = go (source.decode_status raw_file)
    where
      go : (result : Result S) → SameReceptions op (status_decoded {H = H} source result op).0
      go (ok status) = switch_same status (source.overall status).code op
      go (err arinc_615a_exception) = (refl, refl)
      go (err other) = (refl, refl)

  -- What the call for an unknown operation leaves, with the end of the block or without.
  unknown_same :
      (done : Bool) (raw_file : Bytes) (op : Operation) (text : Bytes)
      → SameReceptions op
          (status_received {H = H} source done raw_file
            (finished {H = H} {S = S} operation_aborted_by_dlp text op).0).0
  unfolding finished
  unknown_same done raw_file op text = received_same done raw_file op

  -- So does the end of a reception, known or not.
  pub status_file_completed-IsConsistent :
      (operation : ℕ) (done : Bool) (raw_file : Bytes) (op : Operation)
      → IsConsistent op
      → IsConsistent (status_file_completed {H = H} source operation done raw_file op).0
  unfolding status_file_completed
  status_file_completed-IsConsistent operation done raw_file op h =
      elim (Bool-cases (removed operation op.status_operations == 1)) [
        | inl e ↦ rw e (
            Same-IsConsistent (received_same done raw_file (known operation op))
              (known-IsConsistent operation op h))
        | inr e ↦ rw e (
            Same-IsConsistent (unknown_same done raw_file (known operation op) _)
              (known-IsConsistent operation op h))
      ]

  -- The reception that ends is forgotten, and nothing else.
  pub status_file_completed-receptions :
      (operation : ℕ) (done : Bool) (raw_file : Bytes) (op : Operation)
      → (status_file_completed {H = H} source operation done raw_file op).0.status_operations
        ≡ remove operation op.status_operations
  unfolding status_file_completed
  status_file_completed-receptions operation done raw_file op =
      elim (Bool-cases (removed operation op.status_operations == 1)) [
        | inl e ↦ rw e ((received_same done raw_file (known operation op)).0)
        | inr e ↦ rw e ((unknown_same done raw_file (known operation op) _).0)
      ]
