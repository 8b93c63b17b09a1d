-- ===== src/Selfupdate/Install.antt =====
-- Update from the read of the current binary on, with its rollback; Rollback.
pub mod Safety
mod Examples
use rdda.Common.{
  ℕ, zero, suc, ◌+◌, Bool, true, false, Option, none, some, Str, codes, ◌==◌, str_instance,
  if◌then◌else◌,
}
use rdda.Common.Results.{Result, ok, err}
use rdda.Verify.{Bytes}
use rdda.Selfupdate.Errors.{
  Cause, self_check, restart_failed, not_active, UpdateError, read_current, write_backup,
  swap_binary, no_previous, restore_failed, rolled_back, rollback_failed,
}
use rdda.Selfupdate.Disk.{File, Node, Env, tick, read_bin, read_prev, write_prev, write_bin}

module _ (e : Env) where
  -- restoreBin
  pub restore_bin : Node → Result Str (Unit {0}) × Node
  restore_bin n =
      let (r, n1) = read_prev e n in elim r [ ok b ↦ write_bin e b n1 | err x ↦ (err x, n1) ]

  pub restart_service : Node → Option Str × Node
  restart_service n = (e.restart n.calls, tick n)

  -- rollback restarts the service where it exists, and its error is the rollback's.
  pub rollback : Node → Option Str × Node
  unfolding restart_service
  rollback n =
      let (r, n1) = restore_bin n in
      elim r [
        | ok u ↦ if e.unit_exists n1.calls then restart_service (tick n1) else (none, tick n1)
        | err x ↦ (some x, n1)
      ]

  outcome_of_revert : Cause → Option Str → UpdateError
  outcome_of_revert c none = rolled_back c
  outcome_of_revert c (some x) = rollback_failed c x

  pub revert : Cause → Node → Option UpdateError × Node
  unfolding outcome_of_revert
  revert c n = let (r, n1) = rollback n in (some (outcome_of_revert c r), n1)

  -- Rollback, on the operator's request.
  pub rollback_command : Node → Option UpdateError × Node
  rollback_command n = elim n.prev [
    | none ↦ (some no_previous, tick n)
    | some f ↦
        let (r, n1) = rollback (tick n) in
        (elim r [ none ↦ none | some x ↦ some (restore_failed x) ], n1)
  ]

  version_result : Option File → Node → Result Str Str
  version_result none n = err (codes "no such file or directory")
  version_result (some f) n = e.run_version n.calls f

  pub version : Node → Result Str Str × Node
  unfolding version_result
  version n = (version_result n.bin n, tick n)

  -- waitActive asks at most five times.
  pub wait_active : ℕ → Node → Bool × Node
  wait_active zero n = (false, n)
  wait_active (suc k) n =
      let later = wait_active k (tick n) in if e.is_active n.calls then (true, tick n) else later

  after_wait : Bool × Node → Option UpdateError × Node
  after_wait (true, n) = (none, n)
  after_wait (false, n) = revert not_active n

  after_restart : Option Str → Node → Option UpdateError × Node
  after_restart none n = after_wait (wait_active 5 n)
  after_restart (some x) n = revert (restart_failed x) n

  -- The restart of the service that runs the binary; a node without the service skips it.
  pub restart_phase : Node → Option UpdateError × Node
  restart_phase n =
      if e.unit_exists n.calls
      then after_restart (e.restart (tick n).calls) (tick (tick n))
      else (none, tick n)

  after_version : Str → Result Str Str → Node → Option UpdateError × Node
  after_version to (err x) n = revert (self_check x to) n
  after_version to (ok v) n = if v == to then restart_phase n else revert (self_check v to) n

  -- The self-check: the new binary must print the release's tag.
  pub check_phase : Str → Node → Option UpdateError × Node
  check_phase to n = let (r, n1) = version n in after_version to r n1

  after_swap : Str → Result Str (Unit {0}) → Node → Option UpdateError × Node
  after_swap to (err x) n = (some (swap_binary x), n)
  after_swap to (ok u) n = check_phase to n

  after_backup : Str → Bytes → Result Str (Unit {0}) → Node → Option UpdateError × Node
  after_backup to new (err x) n = (some (write_backup x), n)
  after_backup to new (ok u) n = let (r, n1) = write_bin e new n in after_swap to r n1

  after_read : Str → Bytes → Result Str Bytes → Node → Option UpdateError × Node
  after_read to new (err x) n = (some (read_current x), n)
  after_read to new (ok cur) n = let (r, n1) = write_prev e cur n in after_backup to new r n1

  -- Update, from the read of the current binary on: the backup, the swap, the self-check, the restart.
  pub install : Str → Bytes → Node → Option UpdateError × Node
  install to new n = let (r, n1) = read_bin e n in after_read to new r n1
