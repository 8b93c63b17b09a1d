-- ===== src/Backup/Restore/Examples.antt =====
-- An archive of one client, restored over an existing state, and one whose entry climbs out.
use rdda.Common.{
  has_prefix, split_on, contains, List, [], ◌∷◌, none, some, true, Str, codes, str_eq, refl, All,
}
use rdda.Common.Assoc.{keys, insert}
use rdda.Common.Results.{Result, ok}
use rdda.Backup.{decrypt, parse_header, marshal}
use rdda.Backup.Examples.{primitives, archive}
use rdda.Verify.{Bytes}
use rdda.Common.Paths.{clean}
use rdda.Backup.Restore.{
  Entry, Files, StateDir, Env, read_archive, restore, unpack, unpack_entry, checked,
}
use rdda.Backup.Restore.Atomicity.{After, restore-After, Inside, read_archive-Inside}

abbrev quiet : Env
quiet = record {
  stat = none;
  mkdir_temp = none;
  write_file = λ path. none;
  mkdir_dest = none;
  rename_config = none;
  remove_clients = λ old. none;
  rename_clients = none;
}

abbrev entry : Str → Entry
entry name = record { name = name; size = 2; body = ok (codes "{}") }

abbrev one_client : Bytes → Result Str (List (Result Str Entry))
one_client plain =
    ok (ok (entry (codes "config.yaml")) ∷ ok (entry (codes "./clients//alice.json")) ∷ [])

abbrev old : StateDir
old = record { config = some (codes "old"); clients = some [] }

abbrev unpacked : Files
unpacked = (codes "config.yaml", codes "{}") ∷ (codes "clients/alice.json", codes "{}") ∷ []

restore-After_example :
    After quiet
      (read_archive primitives one_client quiet archive (codes "secret") true old)
      old
      (restore primitives one_client quiet archive (codes "secret") true old).0
      (restore primitives one_client quiet archive (codes "secret") true old).1
restore-After_example = restore-After primitives one_client quiet archive (codes "secret") true old

read_archive-Inside_example : All Inside (keys unpacked)
unfolding read_archive unpack unpack_entry checked clean decrypt parse_header marshal insert str_eq
    has_prefix split_on contains
read_archive-Inside_example =
    read_archive-Inside primitives one_client quiet archive (codes "secret") true old unpacked refl
