-- ===== src/Backup/Restore/Atomicity.antt =====
-- What a restore that fails leaves of the state directory, and which files one writes.
use mathlib.Core.Path.{subst}
use rdda.Common.{
  All, split_on, drop_prefix, has_prefix_cut, Bool-cases, inl, inr, ◌⊎◌, ◌++◌, ◌∙◌, ap, eq_iff,
  nat_eq, Option, none, some, Str, codes, List, [], ◌∷◌, ◌≡◌, refl, Bool, true, is_some, ◌||◌,
  arith, ◌==◌, str_instance, has_prefix,
}
use rdda.Common.Assoc.{lookup, insert, keys}
use rdda.Common.Results.{Result, ok, err, >>=-eq-ok}
use rdda.Verify.{Bytes}
use rdda.Backup.{Primitives, decrypt}
use rdda.Common.Paths.{clean}
use rdda.Common.Paths.Components.{IsName, split_on-cons, split_on-append, clean-IsName}
use rdda.Backup.Restore
use rdda.Backup.Restore.{
  Entry, ReadError, RestoreError, clients_failed, Files, StateDir, Env, config_name, clients_prefix,
  checked, overwrite, lift_open, lift_gzip, lift_temp, lift_read, lift_write, unpack_entry, unpack,
  clients_of, move_clients, move_config, move, after_unpack, read_archive, restore,
}

-- How the state directory stands after a restore that had unpacked `tmp`.
abbrev pub Restored : Files → StateDir → StateDir → Type 0
Restored tmp d d' =
    (b : Bytes) × (lookup config_name tmp ≡ some b)
    × (d' ≡ record { config = some b; clients = some (clients_of tmp) })

abbrev pub After : Env → Result ReadError Files → StateDir → Option RestoreError → StateDir → Type 0
After e unpacked d none d' = (tmp : Files) × (unpacked ≡ ok tmp) × Restored tmp d d'
After e unpacked d (some (clients_failed x)) d' =
    (tmp : Files) × (unpacked ≡ ok tmp)
    × ((b : Bytes) × (lookup config_name tmp ≡ some b)
        × (d' ≡ record { config = some b; clients = e.remove_clients d.clients }))
After e unpacked d (some x) d' = d' ≡ d

move_clients-After :
    (e : Env) (failure : Option Str) (tmp : Files) (d : StateDir) (b : Bytes)
    → lookup config_name tmp ≡ some b
    → After e
        (ok tmp)
        d
        (move_clients failure tmp (Restore.cleared e (record d { config = some b }))).0
        (move_clients failure tmp (Restore.cleared e (record d { config = some b }))).1
unfolding move_clients Restore.cleared
move_clients-After e none tmp d b found = (tmp, refl, (b, found, refl))
move_clients-After e (some x) tmp d b found = (tmp, refl, (b, found, refl))

move_config-After :
    (e : Env) (failure : Option Str) (config : Option Bytes) (tmp : Files) (d : StateDir)
    → lookup config_name tmp ≡ config
    → After e
        (ok tmp)
        d
        (move_config e failure config tmp d).0
        (move_config e failure config tmp d).1
unfolding move_config
move_config-After e failure none tmp d found = refl
move_config-After e (some x) (some b) tmp d found = refl
move_config-After e none (some b) tmp d found = move_clients-After e e.rename_clients tmp d b found

move-After :
    (e : Env) (failure : Option Str) (tmp : Files) (d : StateDir)
    → After e (ok tmp) d (move e failure tmp d).0 (move e failure tmp d).1
unfolding move
move-After e (some x) tmp d = refl
move-After e none tmp d = move_config-After e e.rename_config (lookup config_name tmp) tmp d refl

after_unpack-After :
    (e : Env) (unpacked : Result ReadError Files) (d : StateDir)
    → After e unpacked d (after_unpack e unpacked d).0 (after_unpack e unpacked d).1
unfolding after_unpack
after_unpack-After e (err x) d = refl
after_unpack-After e (ok tmp) d = move-After e e.mkdir_dest tmp d

module _ (crypto : Primitives) (entries : Bytes → Result Str (List (Result Str Entry))) where
  -- However a restore ends: without an error, config.yaml and the clients are those of the unpacked
  -- archive; with an error of the last rename, config.yaml is the unpacked archive's, and the clients are
  -- what the removal of the old ones has left; with any other error the state directory is as it was.
  pub restore-After :
      (e : Env) (archive : Bytes) (passphrase : Str) (force : Bool) (d : StateDir)
      → After e
          (read_archive crypto entries e archive passphrase force d)
          d
          (restore crypto entries e archive passphrase force d).0
          (restore crypto entries e archive passphrase force d).1
  unfolding restore
  restore-After e archive passphrase force d =
      after_unpack-After e (read_archive crypto entries e archive passphrase force d) d

-- A path that is config.yaml, or stands below clients/ by the names of directories and a file: none of
-- them is empty, and none is "." or "..".
abbrev pub Inside : Str → Type 0
Inside p =
    (p ≡ config_name)
    ⊎ ((n : Str) × (cs : List Str) × (split_on b'/' p ≡ codes "clients" ∷ n ∷ cs)
        × All IsName (n ∷ cs))

checked_place :
    (path : Str) (entry : Entry) {p : Str}
    → checked path entry ≡ ok p
    → (path ≡ p) × ((path == config_name || has_prefix path clients_prefix) ≡ true)
unfolding checked
checked_place path entry {p} e = ground arith

below_clients : (name : Str) → has_prefix (clean name) clients_prefix ≡ true → Inside (clean name)
below_clients name h =
    let rest = drop_prefix (clean name) clients_prefix in
    let cut : clean name ≡ codes "clients" ++ b'/' ∷ rest =
      has_prefix_cut (clean name) clients_prefix h in
    let names = clean-IsName name b'c' (codes "lients") rest (omega arith) (λ p. cc) cut in
    let (n, cs, more) = split_on-cons rest in
    let split =
      ap (split_on b'/') cut
      ∙ split_on-append (codes "clients") rest (omega arith)
      ∙ ap (λ ps. codes "clients" ∷ ps) more in
    inr (n, cs, split, (subst (All IsName) split names).1)

checked-Inside :
    (name : Str) (entry : Entry) {p : Str} → checked (clean name) entry ≡ ok p → Inside p
checked-Inside name entry {p} e =
    let (same, place) = checked_place (clean name) entry e in
    subst Inside same (elim (Bool-cases (clean name == config_name)) [
      | inl b ↦ inl ((eq_iff (clean name) config_name).0 b)
      | inr b ↦ below_clients name (rw b at place)
    ])

keys-insert :
    (k : Str) (b : Bytes) (m : Files)
    → Inside k
    → All Inside (keys m)
    → All Inside (keys (insert k b m))
unfolding insert
keys-insert k b [] h hm = (h, tt)
keys-insert k b ((j, c) ∷ m) h (hj, hm) = elim (Bool-cases (j == k)) [
  | inl same ↦ rw same (h, hm)
  | inr other ↦ rw other (hj, keys-insert k b m h hm)
]

same_files : {a b : Files} → ◌≡◌ {A = Result ReadError Files} (ok a) (ok b) → a ≡ b
same_files e = cc

unpack_entry-Inside :
    (e : Env) (entry : Entry) (tmp : Files) {tmp' : Files}
    → All Inside (keys tmp)
    → unpack_entry e entry tmp ≡ ok tmp'
    → All Inside (keys tmp')
unfolding unpack_entry
unpack_entry-Inside e entry tmp {tmp'} h done =
    let (path, checks, rest) = >>=-eq-ok (checked (clean entry.name) entry) _ done in
    let (b, read, rest2) = >>=-eq-ok (lift_read entry.body) _ rest in
    let (u, written, last) = >>=-eq-ok (lift_write (e.write_file path)) _ rest2 in
    subst (λ m. All Inside (keys m)) (same_files last)
      (keys-insert path b tmp (checked-Inside entry.name entry checks) h)

unpack-Inside :
    (e : Env) (es : List (Result Str Entry)) (tmp : Files) {tmp' : Files}
    → All Inside (keys tmp)
    → unpack e es tmp ≡ ok tmp'
    → All Inside (keys tmp')
unfolding unpack
unpack-Inside e [] tmp h done = subst (λ m. All Inside (keys m)) (same_files done) h
unpack-Inside e (err x ∷ es) tmp h done = cc
unpack-Inside e (ok entry ∷ es) tmp h done =
    let (tmp1, first, rest) = >>=-eq-ok (unpack_entry e entry tmp) _ done in
    unpack-Inside e es tmp1 (unpack_entry-Inside e entry tmp h first) rest

module _ (crypto : Primitives) (entries : Bytes → Result Str (List (Result Str Entry))) where
  -- Whatever an archive's entries are called, every file that is unpacked is config.yaml, or its path is
  -- clients and then one name or more, none of which is empty, "." or "..".
  pub read_archive-Inside :
      (e : Env) (archive : Bytes) (passphrase : Str) (force : Bool) (d : StateDir) (tmp : Files)
      → read_archive crypto entries e archive passphrase force d ≡ ok tmp
      → All Inside (keys tmp)
  unfolding read_archive
  read_archive-Inside e archive passphrase force d tmp done =
      let (u, allowed, r1) = >>=-eq-ok (overwrite e.stat (is_some d.config) force) _ done in
      let (plain, opened, r2) = >>=-eq-ok (lift_open (decrypt crypto passphrase archive)) _ r1 in
      let (es, unzipped, r3) = >>=-eq-ok (lift_gzip (entries plain)) _ r2 in
      let (v, made, r4) = >>=-eq-ok (lift_temp e.mkdir_temp) _ r3 in unpack-Inside e es [] tt r4
