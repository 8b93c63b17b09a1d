-- ===== src/Selfupdate/Install/Safety.antt =====
-- No update leaves a node without a working binary unless it says so.
use rdda.Common.{
  ℕ, zero, suc, Bool, true, false, Option, none, some, Str, ◌==◌, str_instance, ◌≡◌, refl, ◌⊎◌, inl,
  inr, arith, eq_iff, ◌∙◌, ap, Option-cases, Bool-cases,
}
use rdda.Common.Results.{Result, ok, err, Result-cases}
use rdda.Verify.{Bytes}
use rdda.Selfupdate.Errors.{
  Cause, self_check, restart_failed, not_active, UpdateError, swap_binary, rolled_back,
  rollback_failed,
}
use rdda.Selfupdate.Disk.{
  File, Node, Env, exec_mode, tick, read_bin, read_prev, write_prev, write_bin,
}
use rdda.Selfupdate.Disk.Laws.{
  content, installed, write_bin-prev, write_bin-ok, write_bin-err, write_prev-ok, write_prev-bin,
  read_bin-ok, read_prev-content, read_bin-node,
}
use rdda.Selfupdate.Install.{
  restore_bin, rollback, revert, version, version_result, wait_active, after_wait, after_restart,
  restart_phase, after_version, check_phase, after_swap, after_backup, after_read, install,
}

-- What the binary is after a failure: restored by a rollback, anything after a failed rollback, the old
-- or the new bytes after a failed swap, and the old ones after every earlier failure.
abbrev pub AfterFailure : Bytes → Bytes → UpdateError → Option File → Type 0
AfterFailure old new (rolled_back c) bin = bin ≡ installed old
AfterFailure old new (rollback_failed c x) bin = Unit
AfterFailure old new (swap_binary x) bin = (content bin ≡ some old) ⊎ (content bin ≡ some new)
AfterFailure old new other bin = content bin ≡ some old

-- What an update leaves: without an error the new binary with mode 0755, which has printed the
-- release's tag, and the old one as its backup.
abbrev pub After : Env → Str → Bytes → Bytes → Option UpdateError → Node → Type 0
After e to old new none n =
    (n.bin ≡ installed new)
    × (content n.prev ≡ some old)
    × ((k : ℕ) × (e.run_version k (record { bytes = new; mode = exec_mode }) ≡ ok to))
After e to old new (some x) n = AfterFailure old new x n.bin

module _ (e : Env) (to : Str) (old new : Bytes) where
  restore_bin-ok :
      (n : Node)
      → content n.prev ≡ some old
      → (restore_bin e n).0 ≡ ok tt
      → (restore_bin e n).1.bin ≡ installed old
  unfolding restore_bin
  restore_bin-ok n p h =
      ground (arith, read_prev-content e n old p, write_bin-ok e old (read_prev e n).1)

  rollback-none :
      (n : Node)
      → content n.prev ≡ some old
      → (rollback e n).0 ≡ none
      → (rollback e n).1.bin ≡ installed old
  unfolding rollback
  rollback-none n p h = ground (arith, restore_bin-ok n p)

  abbrev Post : Option UpdateError × Node → Type 0
  Post r = After e to old new r.0 r.1

  revert-After : (c : Cause) (n : Node) → content n.prev ≡ some old → Post (revert e c n)
  unfolding revert
  revert-After c n p = elim (Option-cases (rollback e n).0) [
    | inl h ↦ rw h (rollback-none n p h)
    | inr (x, h) ↦ rw h tt
  ]

  wait_active-node :
      (k : ℕ) (n : Node)
      → ((wait_active e k n).1.bin ≡ n.bin) × ((wait_active e k n).1.prev ≡ n.prev)
  unfolding wait_active
  wait_active-node zero n = (refl, refl)
  wait_active-node (suc k) n = ground (arith, wait_active-node k (tick n))

  -- What holds once the new binary has passed its self-check.
  abbrev Checked : Node → Type 0
  Checked n = After e to old new none n

  after_wait-After : (r : Bool × Node) → Checked r.1 → Post (after_wait e r)
  unfolding after_wait
  after_wait-After (true, n) h = h
  after_wait-After (false, n) (b, p, v) = revert-After not_active n p

  after_restart-After : (o : Option Str) (n : Node) → Checked n → Post (after_restart e o n)
  unfolding after_restart
  after_restart-After none n (b, p, v) =
      let (kept, backed) = wait_active-node 5 n in
      after_wait-After (wait_active e 5 n) (kept ∙ b, ap content backed ∙ p, v)
  after_restart-After (some x) n (b, p, v) = revert-After (restart_failed x) n p

  restart_phase-After : (n : Node) → Checked n → Post (restart_phase e n)
  unfolding restart_phase
  restart_phase-After n h = elim (Bool-cases (e.unit_exists n.calls)) [
    | inl there ↦ rw there (after_restart-After (e.restart (tick n).calls) (tick (tick n)) h)
    | inr absent ↦ rw absent h
  ]

  after_version-After :
      (r : Result Str Str) (k : ℕ) (n : Node)
      → n.bin ≡ installed new
      → content n.prev ≡ some old
      → e.run_version k (record { bytes = new; mode = exec_mode }) ≡ r
      → Post (after_version e to r n)
  unfolding after_version
  after_version-After (err x) k n b p v = revert-After (self_check x to) n p
  after_version-After (ok w) k n b p v = elim (Bool-cases (w == to)) [
    | inl same ↦ rw same (restart_phase-After n (b, p, (k, v ∙ ap ok ((eq_iff w to).0 same))))
    | inr other ↦ rw other (revert-After (self_check w to) n p)
  ]

  check_phase-After :
      (n : Node) → n.bin ≡ installed new → content n.prev ≡ some old → Post (check_phase e to n)
  unfolding check_phase version
  check_phase-After n b p =
      after_version-After (version_result e n.bin n) n.calls (tick n) b p
        (unfold version_result in rw b refl)

  after_swap-After :
      (n : Node)
      → content n.bin ≡ some old
      → content n.prev ≡ some old
      → Post (after_swap e to (write_bin e new n).0 (write_bin e new n).1)
  unfolding after_swap
  after_swap-After n b p = elim (Result-cases (write_bin e new n).0) [
    | inl (u, h) ↦
        rw h
          (check_phase-After (write_bin e new n).1 (write_bin-ok e new n h) (rw write_bin-prev p))
    | inr (x, h) ↦ rw h (swap_failed (write_bin-err e new n x h))
  ]
    where
      swap_failed :
          ((write_bin e new n).1.bin ≡ n.bin) ⊎ (content (write_bin e new n).1.bin ≡ some new)
          → (content (write_bin e new n).1.bin ≡ some old)
            ⊎ (content (write_bin e new n).1.bin ≡ some new)
      swap_failed (inl same) = inl (ap content same ∙ b)
      swap_failed (inr last) = inr last

  after_backup-After :
      (r : Result Str (Unit {0})) (n : Node)
      → content n.bin ≡ some old
      → (r ≡ ok tt → content n.prev ≡ some old)
      → Post (after_backup e to new r n)
  unfolding after_backup
  after_backup-After (err x) n b p = b
  after_backup-After (ok u) n b p = after_swap-After n b (p refl)

  after_read-After :
      (r : Result Str Bytes) (n : Node)
      → content n.bin ≡ some old
      → ((cur : Bytes) → r ≡ ok cur → cur ≡ old)
      → Post (after_read e to new r n)
  unfolding after_read
  after_read-After (err x) n b same = b
  after_read-After (ok cur) n b same =
      after_backup-After (write_prev e cur n).0 (write_prev e cur n).1
        (ap content (write_prev-bin e cur n) ∙ b)
        (λ h. write_prev-ok e cur n h ∙ ap some (same cur refl))

-- Whatever calls fail, an update of a node with a binary ends in one of these ways. Without an error the
-- new binary is in place with mode 0755, has printed the release's tag, and the old one is its backup. An
-- error that says "rolled back" leaves the old bytes with mode 0755; one that reports a failed swap leaves
-- the old bytes, or the new ones; one that reports a failed rollback promises nothing; every other error
-- leaves the old bytes.
pub install-After :
    (e : Env) (to : Str) (old new : Bytes) (n : Node)
    → content n.bin ≡ some old
    → After e to old new (install e to new n).0 (install e to new n).1
unfolding install
install-After e to old new n b =
    after_read-After e to old new (read_bin e n).0 (read_bin e n).1
      (ap content (ap (λ (m : Node). m.bin) (read_bin-node e n)) ∙ b)
      (λ cur h. cc (read_bin-ok e n cur h))
