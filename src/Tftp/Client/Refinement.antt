-- ===== src/Tftp/Client/Refinement.antt =====
-- What a TFTP client operation promises, without its error information, its handlers and the way in
-- which it decides: a state machine that the code refines.
use arinc_615a_gui_tool_suit.Base.{ℕ, ◌+◌, ◌≡◌, ◌<◌, Bool, true, false, List}
use arinc_615a_gui_tool_suit.Tftp.Client.{Client, Action}

-- A transfer or a wait, with the retries that were made, or the end.
pub data Phase : Type 0 where
  transferring waiting : ℕ → Phase
  done : Phase

-- The promise: a transfer may be tried again up to a limit, be deferred or end, a wait may be over or
-- end, and nothing comes after the end.
pub data Promise (limit : ℕ) : Phase → Phase → Type 0 where
  again : {n m : ℕ} → n < limit → m ≡ n + 1 → Promise limit (transferring n) (transferring m)
  end_transfer : {n : ℕ} → Promise limit (transferring n) done
  defer : {n : ℕ} → Promise limit (transferring n) (waiting n)
  resume : {n : ℕ} → Promise limit (waiting n) (transferring n)
  end_wait : {n : ℕ} → Promise limit (waiting n) done
  stay : {p : Phase} → Promise limit p p

abbrev pub phase_of : Bool → Bool → ℕ → Phase
phase_of true waits retries = transferring retries
phase_of false true retries = waiting retries
phase_of false false retries = done

module _ {E : Type 0} where
  abbrev pub phase : Client E → Phase
  phase c = phase_of c.operation c.waiting c.retries

  -- The result of code that runs after a transfer with `n` retries has ended.
  abbrev After : ℕ → ℕ → Client E × List (Action E) → Type 0
  After limit n r = Promise limit (transferring n) (phase r.0)
