-- ===== src/Host/Status/Pending.antt =====
-- The receptions of status files that a data loader knows, and those that are pending.
use arinc_615a_gui_tool_suit.Base.{
  ap, ◌∙◌, not, ◌&&◌, ◌||◌, ℕ, ◌==◌, ◌≡◌, refl, Bool, true, false, inl, inr, Bool-cases, List, [],
  ◌∷◌, Bytes, if◌then◌else◌, arith,
}
use arinc_615a_gui_tool_suit.Host.Operation.{Operation, Action, is_no_abort, receive_status}
use arinc_615a_gui_tool_suit.Host.Status.{
  StatusSource, remove, removed, status_file_request, status_file_completed,
}
use arinc_615a_gui_tool_suit.Host.Status.Receptions.{
  IsConsistent, SameReceptions, removed-remove, empty-IsConsistent, is_aborted_idle,
  is_aborted-some, status_file_request-IsConsistent, status_file_completed-IsConsistent,
  status_file_completed-receptions,
}

-- The requests and the ends of receptions, in any order.
pub data Event (H : Type 0) : Type 0 where
  status_requested : H → Event H
  status_completed : ℕ → Bool → Bytes → Event H

abbrev as_number : Bool → ℕ
as_number true = 1
as_number false = 0

number_if : (b : Bool) → as_number b ≡ (if b then 1 else 0)
number_if true = refl
number_if false = refl

removed-forgotten :
    (o operation : ℕ) (ns : List ℕ) (open' : Bool)
    → removed o ns ≡ as_number open'
    → removed o (remove operation ns) ≡ as_number (open' && not (operation == o))
removed-forgotten o operation ns open' e = rw (removed-remove o operation ns) (ground (arith, e))

-- Whether one of the actions starts the reception `o`.
abbrev pub starts : {H S : Type 0} → ℕ → List (Action H S) → Bool
starts o [] = false
starts o (receive_status remote operation ∷ actions) = operation == o || starts o actions
starts o (_ ∷ actions) = starts o actions

module _ {H S : Type 0} (source : StatusSource S) where
  unfoldable pub after : List (Event H) → Operation → Operation
  after [] op = op
  after (status_requested remote ∷ events) op =
      after events (status_file_request {S = S} remote op).0
  after (status_completed operation done raw_file ∷ events) op =
      after events (status_file_completed {H = H} source operation done raw_file op).0

  -- Whether the reception `o` was started by an action so far, and has not ended since; at the
  -- beginning it is `open'`. This looks at the events and at the actions alone.
  unfoldable pub is_pending : List (Event H) → Operation → ℕ → Bool → Bool
  is_pending [] op o open' = open'
  is_pending (status_requested remote ∷ events) op o open' =
      let (next, actions) = status_file_request {S = S} remote op in
      is_pending events next o (open' || starts o actions)
  is_pending (status_completed operation done raw_file ∷ events) op o open' =
      is_pending events (status_file_completed {H = H} source operation done raw_file op).0 o
        (open' && not (operation == o))

  requested-pending :
      (remote : H) (op : Operation) (o : ℕ) (open' : Bool)
      → IsConsistent op
      → removed o op.status_operations ≡ as_number open'
      → let r = status_file_request {S = S} remote op in
        removed o r.0.status_operations ≡ as_number (open' || starts o r.1)
  unfolding status_file_request
  requested-pending remote op o open' h e = elim (Bool-cases (is_no_abort op.abort_reason)) [
    | inl idle ↦
        rw (is_aborted_idle S remote op idle, status_file_request)
          (ground (arith, e, h.fresh op.next_operation))
    | inr aborting ↦
        rw (is_aborted-some S remote op aborting, status_file_request) (ground (arith, e))
  ]

  after-pending :
      ((op : Operation) → SameReceptions op (source.mark op))
      → (events : List (Event H)) (op : Operation) (o : ℕ) (open' : Bool) → IsConsistent op
      → removed o op.status_operations ≡ as_number open'
      → removed o (after events op).status_operations ≡ as_number (is_pending events op o open')
  unfolding after is_pending
  after-pending same [] op o open' h e = e
  after-pending same (status_requested remote ∷ events) op o open' h e =
      after-pending same events _ o _ (status_file_request-IsConsistent S remote op h)
        (requested-pending remote op o open' h e)
  after-pending same (status_completed operation done raw_file ∷ events) op o open' h e =
      after-pending same events _ o _
        (status_file_completed-IsConsistent H source same operation done raw_file op h)
        (rw (status_file_completed-receptions H source same operation done raw_file op)
          (removed-forgotten o operation op.status_operations open' e))

  -- From no receptions on, whatever status files are requested and whatever receptions end, known or
  -- not: the data loader knows exactly the receptions that it started and that have not ended since,
  -- and each of them once. What the class does about an acceptance leaves the receptions alone.
  pub after-removed :
      ((op : Operation) → SameReceptions op (source.mark op))
      → (events : List (Event H)) (op : Operation) (o : ℕ) → op.status_operations ≡ []
      → removed o (after events op).status_operations
        ≡ (if is_pending events op o false then 1 else 0)
  after-removed same events op o none' =
      after-pending same events op o false (empty-IsConsistent op none')
        (ap (λ ns. removed o ns) none')
      ∙ number_if (is_pending events op o false)
