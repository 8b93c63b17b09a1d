-- ===== src/Backup/Restore.antt =====
-- internal/backup/backup.go: Restore. What the tar reader gives is a list of entries, an error where it
-- fails; gzip and tar are an argument, and so is what the file system answers to each call.
mod Examples
pub mod Atomicity
use rdda.Common.{
  ℕ, ◌*◌, ◌^◌, Bool, true, false, not, List, [], ◌∷◌, ◌++◌, Option, none, some, Str, codes, ◌==◌,
  nat_eq, str_instance, ◌&&◌, ◌||◌, ltb, if◌then◌else◌, has_prefix, contains, drop_prefix, split_on,
  is_some,
}
use rdda.Common.Paths.{clean}
use rdda.Common.Assoc.{lookup, insert}
use rdda.Common.Results.{Result, ok, err, ◌>>=◌}
use rdda.Verify.{Bytes}
use rdda.Backup.{BackupError, Primitives, decrypt}

-- A header with what reading at most its size gives.
pub record Entry : Type 0 where
  pub name : Str
  pub size : ℕ
  pub body : Result Str Bytes

-- Refusals before the first change of the state directory, and failures from there on.
pub data ReadError : Type 0 where
  already_exists : ReadError
  not_opened : BackupError → ReadError
  stat_failed bad_gzip temp_failed bad_tar write_failed : Str → ReadError
  unsafe_entry unexpected_entry too_large : Str → ReadError

pub data RestoreError : Type 0 where
  not_read : ReadError → RestoreError
  missing_config : RestoreError
  dest_failed config_failed clients_failed : Str → RestoreError

abbrev pub Files : Type 0
Files = List (Str × Bytes)

-- The state directory: its config.yaml and its clients.
pub record StateDir : Type 0 where
  pub config : Option Bytes
  pub clients : Option Files

-- What the file system answers; `remove_clients` is what RemoveAll leaves of the old clients.
pub record Env : Type 0 where
  pub stat : Option Str
  pub mkdir_temp : Option Str
  pub write_file : Str → Option Str
  pub mkdir_dest : Option Str
  pub rename_config : Option Str
  pub remove_clients : Option Files → Option Files
  pub rename_clients : Option Str

abbrev pub max_entry : ℕ
max_entry = 8 * 2 ^ 20

abbrev pub config_name : Str
config_name = codes "config.yaml"

abbrev pub clients_prefix : Str
clients_prefix = codes "clients/"

abbrev pub lift_read : Result Str Bytes → Result ReadError Bytes
lift_read (ok b) = ok b
lift_read (err x) = err (bad_tar x)

abbrev pub lift_write : Option Str → Result ReadError (Unit {0})
lift_write none = ok tt
lift_write (some x) = err (write_failed x)

-- The checks on an entry's name and size, in order.
pub checked : Str → Entry → Result ReadError Str
checked path entry =
    if has_prefix path (codes "/") || has_prefix path (codes "../") || contains path (codes "/../")
    then err (unsafe_entry entry.name)
    else if not (path == config_name) && not (has_prefix path clients_prefix)
    then err (unexpected_entry entry.name)
    else if ltb max_entry entry.size
    then err (too_large entry.name)
    else ok path

pub unpack_entry : Env → Entry → Files → Result ReadError Files
unpack_entry e entry tmp = do
  path ← checked (clean entry.name) entry
  b ← lift_read entry.body
  written ← lift_write (e.write_file path)
  ok (insert path b tmp)

-- The loop over the archive, into the temporary directory.
pub unpack : Env → List (Result Str Entry) → Files → Result ReadError Files
unpack e [] tmp = ok tmp
unpack e (err x ∷ es) tmp = err (bad_tar x)
unpack e (ok entry ∷ es) tmp = do tmp' ← unpack_entry e entry tmp; unpack e es tmp'

pub clients_of : Files → Files
clients_of [] = []
clients_of ((path, b) ∷ tmp) =
    let rest = clients_of tmp in
    if has_prefix path clients_prefix then (drop_prefix path clients_prefix, b) ∷ rest else rest

-- The last rename, after the old clients were removed, or as many of them as could be.
move_clients : Option Str → Files → StateDir → Option RestoreError × StateDir
move_clients none tmp d = (none, record d { clients = some (clients_of tmp) })
move_clients (some x) tmp d = (some (clients_failed x), d)

-- os.RemoveAll, whose error is ignored.
cleared : Env → StateDir → StateDir
cleared e d = record d { clients = e.remove_clients d.clients }

move_config : Env → Option Str → Option Bytes → Files → StateDir → Option RestoreError × StateDir
unfolding move_clients cleared
move_config e failure none tmp d = (some missing_config, d)
move_config e (some x) (some b) tmp d = (some (config_failed x), d)
move_config e none (some b) tmp d =
    move_clients e.rename_clients tmp (cleared e (record d { config = some b }))

move : Env → Option Str → Files → StateDir → Option RestoreError × StateDir
unfolding move_config
move e (some x) tmp d = (some (dest_failed x), d)
move e none tmp d = move_config e e.rename_config (lookup config_name tmp) tmp d

after_unpack : Env → Result ReadError Files → StateDir → Option RestoreError × StateDir
unfolding move
after_unpack e (err x) d = (some (not_read x), d)
after_unpack e (ok tmp) d = move e e.mkdir_dest tmp d

abbrev pub lift_open : Result BackupError Bytes → Result ReadError Bytes
lift_open (ok b) = ok b
lift_open (err x) = err (not_opened x)

abbrev pub lift_gzip :
    Result Str (List (Result Str Entry)) → Result ReadError (List (Result Str Entry))
lift_gzip (ok es) = ok es
lift_gzip (err x) = err (bad_gzip x)

abbrev pub lift_temp : Option Str → Result ReadError (Unit {0})
lift_temp none = ok tt
lift_temp (some x) = err (temp_failed x)

-- The guard on an existing config.yaml.
abbrev pub overwrite : Option Str → Bool → Bool → Result ReadError (Unit {0})
overwrite (some x) exists force = err (stat_failed x)
overwrite none true false = err already_exists
overwrite none true true = ok tt
overwrite none false force = ok tt

module _ (crypto : Primitives) (entries : Bytes → Result Str (List (Result Str Entry))) where
  -- Everything before the first change of the state directory.
  pub read_archive : Env → Bytes → Str → Bool → StateDir → Result ReadError Files
  read_archive e archive passphrase force d = do
    allowed ← overwrite e.stat (is_some d.config) force
    plain ← lift_open (decrypt crypto passphrase archive)
    es ← lift_gzip (entries plain)
    temp ← lift_temp e.mkdir_temp
    unpack e es []

  -- Restore
  pub restore : Env → Bytes → Str → Bool → StateDir → Option RestoreError × StateDir
  unfolding after_unpack
  restore e archive passphrase force d =
      after_unpack e (read_archive e archive passphrase force d) d
