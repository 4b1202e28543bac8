-- ===== src/Tftp/Server.antt =====
-- The errors with which a TFTP server answers
-- (lib/arinc_615a/tftp/servers/implementation/ServerImpl.cpp): `not_defined_code` is the error code
-- `NotDefined` of the TFTP library.
use arinc_615a_gui_tool_suit.Base.{ℤ, Bytes, Result, ok, continue}
use arinc_615a_gui_tool_suit.Codes.{StatusCode}
use arinc_615a_gui_tool_suit.ErrorMessage.{abort_message, wait_message}

module _ {E : Type 0} (not_defined_code : E) where
  -- `waitOperation`: an exception of the message leaves it.
  abbrev pub wait_operation : ℤ → Result (E × Bytes)
  wait_operation seconds =
      continue (wait_message seconds) (λ message. ok (not_defined_code, message))

  -- `abortOperation`
  abbrev pub abort_operation : StatusCode → E × Bytes
  abort_operation status = (not_defined_code, abort_message status)
