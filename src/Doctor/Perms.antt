-- ===== src/Doctor/Perms.antt =====
-- internal/doctor/perms.go: whether the service user can read the state files. Owners are a Unix file's
-- user and group numbers; a mode is the file's mode bits.
pub mod Readable
use rdda.Common.{
  ℕ, ◌/◌, ◌%◌, Bool, true, false, not, List, [], ◌∷◌, ◌++◌, Option, none, some, Str, codes, ◌==◌,
  nat_eq, str_instance, if◌then◌else◌,
}
use rdda.Common.Paths.{join}
use rdda.Doctor.Checks.{Status, pass, warn, fail, Check, check}

pub record FileStat : Type 0 where
  pub uid : ℕ
  pub gid : ℕ
  pub mode : ℕ

-- `p&bit != 0` for a bit's weight.
abbrev pub has_bit : ℕ → ℕ → Bool
has_bit p bit = p / bit % 2 == 1

-- serviceUserCanRead
unfoldable pub service_user_can_read : FileStat → ℕ → ℕ → Bool
service_user_can_read f uid gid =
    let p = f.mode % 512 in
    if uid == f.uid then has_bit p 256 else if gid == f.gid then has_bit p 32 else has_bit p 4

-- The seams: the service user, what a path is, and a directory's files.
pub record Seams : Type 0 where
  pub svc_user : Option (ℕ × ℕ)
  pub stat_file : Str → Option FileStat
  pub dir_files : Str → List Str

abbrev refused : Option FileStat → ℕ → ℕ → Bool
refused none uid gid = false
refused (some f) uid gid = not (service_user_can_read f uid gid)

-- The inner loop: the first path that the user cannot read.
first_refused : Seams → ℕ → ℕ → List Str → Option Str
first_refused s uid gid [] = none
first_refused s uid gid (path ∷ paths) =
    let rest = first_refused s uid gid paths in
    if refused (s.stat_file path) uid gid then some path else rest

-- The paths of an entry: itself, and its files if it is a directory.
abbrev pub expanded : Seams → Str → List Str
expanded s base = base ∷ s.dir_files base

or_else : Option Str → Option Str → Option Str
or_else none rest = rest
or_else (some path) rest = some path

-- The outer loop.
first_problem : Seams → Str → ℕ → ℕ → List Str → Option Str
unfolding first_refused or_else
first_problem s dir uid gid [] = none
first_problem s dir uid gid (e ∷ es) =
    or_else (first_refused s uid gid (expanded s (join dir e))) (first_problem s dir uid gid es)

verdict : Str → Option Str → Check
verdict dir none =
    check (codes "permissions") pass (codes "state files readable by the rdda service user") []
verdict dir (some path) =
    check (codes "permissions") fail (path ++ codes " not readable by the rdda service user") (
      codes "sudo chown -R rdda:rdda "
      ++ dir
      ++ codes "  (a root-owned file 500s the sub server / crash-loops sing-box)")

audit : Seams → Str → List Str → Option (ℕ × ℕ) → Check
unfolding verdict first_problem
audit s dir entries none =
    check (codes "permissions") warn
      (codes "rdda service user not found; cannot verify state-dir ownership") []
audit s dir entries (some (uid, gid)) = verdict dir (first_problem s dir uid gid entries)

-- permsCheck
unfoldable pub perms_check : Seams → Str → List Str → Check
unfolding audit
perms_check s dir entries = audit s dir entries s.svc_user
