-- ===== src/State/Store.antt =====
-- internal/state/client.go: the clients' directory. The JSON printer and parser of a client's file are
-- arguments, and so is what the random number generator and the file system answer.
pub mod Register
pub mod Validity
pub mod Refinement
pub mod Examples
use rdda.Common.{
  ℕ, Bool, true, false, not, List, [], ◌∷◌, ◌++◌, Option, none, some, Str, codes, ◌==◌, nat_eq,
  str_instance, ◌&&◌, ◌||◌, if◌then◌else◌, trim_space, has_prefix, has_suffix, drop_prefix, any,
  is_some, str_lt,
}
use rdda.Common.Assoc.{lookup, insert, delete}
use rdda.Common.Paths.{join}
use rdda.Common.Results.{Result, ok, err, ◌>>=◌}
use rdda.Common.Sorting.{sort}
use rdda.State.Clients.{Client}
use rdda.State.Fingerprint.{random_client_fingerprint, is_client_fingerprint, fingerprint_list}

-- An entry of the directory: a subdirectory, a file that cannot be read, or a file's text.
pub data Entry (Text : Type 0) : Type 0 where
  subdirectory : Entry Text
  unreadable : Str → Entry Text
  file : Text → Entry Text

-- The entries, each name once. ReadDir sorts them by name; the order here decides only which of several
-- files that cannot be read or parsed fails the list.
abbrev pub Dir : Type 0 → Type 0
Dir Text = List (Str × Entry Text)

pub data StoreError : Type 0 where
  empty_name : StoreError
  unsupported_fingerprint already_exists not_found random_failed : Str → StoreError
  marshal_failed write_failed remove_failed : Str → StoreError

-- What is drawn for a new client: an index into the pool, the identifiers, and the time.
pub record Fresh : Type 0 where
  pub fingerprint : Result Str ℕ
  pub uuid : Str
  pub short_id : Result Str Str
  pub token : Result Str Str
  pub now : ℕ

-- The file system: what a path outside the clients' directory is, whether a write or a removal fails,
-- and what a failed write leaves.
pub record Env (Text : Type 0) : Type 0 where
  pub stat_outside : Str → Bool
  pub write : Str → Option Str
  pub torn : Str → Option (Entry Text)
  pub remove : Str → Option Str

unfoldable pub client_file_name : Str → Str
client_file_name name = name ++ codes ".json"

-- The entry of the directory that a path names, if the path stands directly in it.
entry_in : Str → Str → Option Str
entry_in path prefix =
    if has_prefix path prefix
    then (let name = drop_prefix path prefix in
        if any (λ c. c == b'/') name then none else some name)
    else none

unfoldable pub clients_dir : Str → Str
clients_dir dir = join dir (codes "clients")

unfoldable pub client_path : Str → Str → Str
unfolding clients_dir client_file_name
client_path dir name = join (clients_dir dir) (client_file_name name)

unfoldable pub entry_of : Str → Str → Option Str
unfolding entry_in
entry_of dir path = entry_in path (clients_dir dir ++ codes "/")

module _ {Text : Type 0} (dir : Str) (e : Env Text) where
  -- os.Stat gives no error.
  stat_entry : Option Str → Str → Dir Text → Bool
  stat_entry none path d = e.stat_outside path
  stat_entry (some name) path d = is_some (lookup name d)

  left_at : Str → Option (Entry Text) → Dir Text → Dir Text
  left_at name none d = d
  left_at name (some left) d = insert name left d

  unfoldable pub stat : Str → Dir Text → Bool
  unfolding stat_entry
  stat path d = stat_entry (entry_of dir path) path d

  written : Option Str → Option Str → Text → Dir Text → Result StoreError (Unit {0}) × Dir Text
  written (some x) none t d = (err (write_failed x), d)
  written (some x) (some name) t d = (err (write_failed x), left_at name (e.torn name) d)
  written none none t d = (ok tt, d)
  written none (some name) t d = (ok tt, insert name (file t) d)

  -- os.WriteFile
  unfoldable pub write_file : Str → Text → Dir Text → Result StoreError (Unit {0}) × Dir Text
  unfolding written left_at
  write_file path t d = written (e.write path) (entry_of dir path) t d

  removed : Option Str → Option Str → Dir Text → Option StoreError × Dir Text
  removed (some x) place d = (some (remove_failed x), d)
  removed none none d = (none, d)
  removed none (some name) d = (none, delete name d)

  -- os.Remove
  unfoldable pub remove_file : Str → Dir Text → Option StoreError × Dir Text
  unfolding removed
  remove_file path d = removed (e.remove path) (entry_of dir path) d

  unfoldable pub remove_client : Str → Dir Text → Option StoreError × Dir Text
  unfolding stat remove_file
  remove_client name d =
      let path = client_path dir name in
      if stat path d then remove_file path d else (some (not_found name), d)

abbrev lift_random : Result Str Str → Result StoreError Str
lift_random (ok s) = ok s
lift_random (err x) = err (random_failed x)

chosen_fingerprint : Fresh → Str → Result StoreError Str
chosen_fingerprint r fp =
    if fp == []
    then ok (random_client_fingerprint r.fingerprint)
    else if is_client_fingerprint fp
    then ok fp
    else err (unsupported_fingerprint fp)

not_empty : Str → Result StoreError (Unit {0})
not_empty name = if name == [] then err empty_name else ok tt

absent : Bool → Str → Result StoreError (Unit {0})
absent true name = err (already_exists name)
absent false name = ok tt

-- Everything before the file is written: the checks in order, then the random identifiers.
unfoldable pub new_client : Fresh → Str → Str → Bool → Result StoreError Client
unfolding not_empty chosen_fingerprint absent
new_client r name fp exists = do
  named ← not_empty name
  fingerprint ← chosen_fingerprint r fp
  unused ← absent exists name
  sid ← lift_random r.short_id
  tok ← lift_random r.token
  ok (record {
    name = name;
    uuid = r.uuid;
    short_id = sid;
    token = tok;
    fingerprint = fingerprint;
    created = r.now;
  })

module _ {Text : Type 0} (marshal : Client → Result Str Text) (dir : Str) (e : Env Text) where
  after_write :
      Client → Result StoreError (Unit {0}) × Dir Text → Result StoreError Client × Dir Text
  after_write c (err x, d) = (err x, d)
  after_write c (ok u, d) = (ok c, d)

  after_marshal : Client → Str → Result Str Text → Dir Text → Result StoreError Client × Dir Text
  unfolding after_write
  after_marshal c path (err x) d = (err (marshal_failed x), d)
  after_marshal c path (ok t) d = after_write c (write_file dir e path t d)

  persist : Str → Result StoreError Client → Dir Text → Result StoreError Client × Dir Text
  unfolding after_marshal
  persist path (err x) d = (err x, d)
  persist path (ok c) d = after_marshal c path (marshal c) d

  -- AddClientWithFingerprint; the chown afterwards is best effort and changes no content.
  unfoldable pub add_client_with_fingerprint :
      Fresh → Str → Str → Dir Text → Result StoreError Client × Dir Text
  unfolding persist
  add_client_with_fingerprint r raw fp d =
      let name = trim_space raw in
      let path = client_path dir name in persist path (new_client r name fp (stat dir e path d)) d

  pub add_client : Fresh → Str → Dir Text → Result StoreError Client × Dir Text
  add_client r raw d = add_client_with_fingerprint r raw [] d

unfoldable pub find_token : Str → List Client → Option Client
find_token token [] = none
find_token token (c ∷ cs) = if c.token == token then some c else find_token token cs

module _ {Text : Type 0} where
  is_subdirectory : Entry Text → Bool
  is_subdirectory subdirectory = true
  is_subdirectory n = false

  unfoldable pub is_listed : Str → Entry Text → Bool
  unfolding is_subdirectory
  is_listed name n = not (is_subdirectory n || not (has_suffix name (codes ".json")))

module _ {Text : Type 0} (unmarshal : Text → Result Str Client) where
  unfoldable pub read_entry : Entry Text → Result Str Client
  read_entry subdirectory = err (codes "is a directory")
  read_entry (unreadable x) = err x
  read_entry (file t) = unmarshal t

  -- The loop over the entries: one file that cannot be read or parsed fails the list.
  unfoldable pub read_entries : Dir Text → Result Str (List Client)
  read_entries [] = ok []
  read_entries ((name, n) ∷ d) =
      let rest = read_entries d in
      if is_listed name n then (read_entry n >>= λ c. rest >>= λ cs. ok (c ∷ cs)) else rest

  -- ListClients, on what ReadDir gave. The names of the stored clients differ, so sort.Slice has one
  -- result, that of a stable sort.
  unfoldable pub list_clients : Result Str (Dir Text) → Result Str (List Client)
  list_clients listing = do
    d ← listing
    cs ← read_entries d
    ok (sort (λ a b. str_lt a.name b.name) cs)

  unfoldable pub client_by_token : Result Str (Dir Text) → Str → Result Str (Option Client)
  unfolding find_token
  client_by_token listing token = do cs ← list_clients listing; ok (find_token token cs)
