-- ===== src/Selfupdate/Disk.antt =====
-- The node's three files and the calls of the operating system that move them; writeBin.
pub mod Laws
use rdda.Common.{ℕ, ◌+◌, Bool, Option, none, some, Str, codes}
use rdda.Common.Results.{Result, ok, err}
use rdda.Verify.{Bytes}

pub record File : Type 0 where
  pub bytes : Bytes
  pub mode : ℕ

-- The binary, its backup `.prev`, the staged `.new`, and how many calls were made.
pub record Node : Type 0 where
  pub bin : Option File
  pub prev : Option File
  pub staged : Option File
  pub calls : ℕ

-- What the environment answers to the n-th call: an error of the file system, and what a failed write
-- leaves; the mode of a new file under the umask; and the seams of the Updater that run programs.
pub record Env : Type 0 where
  pub fault : ℕ → Option Str
  pub torn : ℕ → Option File
  pub masked : ℕ → ℕ
  pub run_version : ℕ → File → Result Str Str
  pub unit_exists : ℕ → Bool
  pub restart : ℕ → Option Str
  pub is_active : ℕ → Bool

abbrev pub exec_mode : ℕ
exec_mode = 0o755

abbrev pub tick : Node → Node
tick n = record n { calls = n.calls + 1 }

-- os.WriteFile keeps the mode of a file that exists.
pub written : Env → Option File → Bytes → File
written e none b = record { bytes = b; mode = e.masked exec_mode }
written e (some f) b = record { bytes = b; mode = f.mode }

-- What a read answers: the environment's error, or that of a missing file.
pub read_result : Option Str → Option File → Result Str Bytes
read_result (some x) f = err x
read_result none none = err (codes "no such file or directory")
read_result none (some f) = ok f.bytes

module _ (e : Env) where
  pub read_bin : Node → Result Str Bytes × Node
  unfolding read_result
  read_bin n = (read_result (e.fault n.calls) n.bin, tick n)

  pub read_prev : Node → Result Str Bytes × Node
  unfolding read_result
  read_prev n = (read_result (e.fault n.calls) n.prev, tick n)

  write_prev_result : Option Str → Bytes → Node → Result Str (Unit {0}) × Node
  write_prev_result none b n = (ok tt, record (tick n) { prev = some (written e n.prev b) })
  write_prev_result (some x) b n = (err x, record (tick n) { prev = e.torn n.calls })

  pub write_prev : Bytes → Node → Result Str (Unit {0}) × Node
  unfolding write_prev_result
  write_prev b n = write_prev_result (e.fault n.calls) b n

  -- os.Chmod of the binary.
  chmod_result : Option Str → Option File → Node → Result Str (Unit {0}) × Node
  chmod_result (some x) f n = (err x, tick n)
  chmod_result none none n = (err (codes "no such file or directory"), tick n)
  chmod_result none (some f) n =
      (ok tt, record (tick n) { bin = some (record f { mode = exec_mode }) })

  chmod : Node → Result Str (Unit {0}) × Node
  unfolding chmod_result
  chmod n = chmod_result (e.fault n.calls) n.bin n

  -- os.Rename of the staged file over the binary. After a failure the staged file is whatever the
  -- attempt to remove it leaves, as after a failed write of it.
  rename_result : Option Str → Node → Result Str (Unit {0}) × Node
  unfolding chmod
  rename_result none n = chmod (record (tick n) { bin = n.staged; staged = none })
  rename_result (some x) n = (err x, record (tick n) { staged = e.torn n.calls })

  rename : Node → Result Str (Unit {0}) × Node
  unfolding rename_result
  rename n = rename_result (e.fault n.calls) n

  stage_result : Option Str → Bytes → Node → Result Str (Unit {0}) × Node
  unfolding rename
  stage_result none b n = rename (record (tick n) { staged = some (written e n.staged b) })
  stage_result (some x) b n = (err x, record (tick n) { staged = e.torn n.calls })

  -- writeBin
  pub write_bin : Bytes → Node → Result Str (Unit {0}) × Node
  unfolding stage_result
  write_bin b n = stage_result (e.fault n.calls) b n
