-- ===== src/Selfupdate/Errors.antt =====
-- The errors of an update, one constructor for each message.
use rdda.Common.{Str}
use rdda.Verify.{VerifyError}

-- Why an installed binary is taken back.
pub data Cause : Type 0 where
  self_check : Str → Str → Cause
  restart_failed : Str → Cause
  not_active : Cause

pub data UpdateError : Type 0 where
  resolve_failed fetch_failed read_current write_backup swap_binary : Str → UpdateError
  key_failed signature : VerifyError → UpdateError
  no_checksum : Str → UpdateError
  mismatch : Str → Str → UpdateError
  no_previous : UpdateError
  restore_failed : Str → UpdateError
  rolled_back : Cause → UpdateError
  rollback_failed : Cause → Str → UpdateError
