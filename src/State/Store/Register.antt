-- ===== src/State/Store/Register.antt =====
-- internal/state/client.go against a register of clients: a function from a name to the client that
-- has it. AddClientWithFingerprint and RemoveClient, on a file system that does not fail and for
-- names that stand directly in the clients' directory.
use rdda.Common.{
  List, [], ◌∷◌, Option, none, some, Str, ◌==◌, nat_eq, str_instance, if◌then◌else◌, trim_space,
  is_some, not, ◌&&◌, Bool, ◌≡◌, arith,
}
use rdda.Common.Assoc.{lookup}
use rdda.Common.Results.{Result, ok, err}
use rdda.State.Clients.{Client}
use rdda.State.Fingerprint.{is_client_fingerprint, random_client_fingerprint}
use rdda.State.Store.{
  Entry, Dir, StoreError, not_found, empty_name, unsupported_fingerprint, already_exists,
  random_failed, Fresh, Env, client_file_name, new_client, add_client_with_fingerprint,
  remove_client, read_entry,
}

abbrev pub Register : Type 0
Register = Str → Option Client

abbrev pub put : Client → Register → Register
put c f name = if c.name == name then some c else f name

abbrev pub drop_name : Str → Register → Register
drop_name name f other = if name == other then none else f other

-- A call with its arguments: what add draws, the name as given, the fingerprint.
pub data Call : Type 0 where
  add : Fresh → Str → Str → Call
  remove : Str → Call

-- What a call answers: an error, the client that was added, or nothing after a removal.
abbrev pub Answer : Type 0
Answer = Result StoreError (Option Client)

abbrev added : Result StoreError Client → Answer
added (ok c) = ok (some c)
added (err x) = err x

abbrev removed : Option StoreError → Answer
removed none = ok none
removed (some x) = err x

-- What keeps a client from being added: the first that applies.
failed_draw : Result Str Str → Result Str Str → Option StoreError
failed_draw (err x) tok = some (random_failed x)
failed_draw (ok sid) (err x) = some (random_failed x)
failed_draw (ok sid) (ok tok) = none

pub refusal : Fresh → Str → Str → Bool → Option StoreError
unfolding failed_draw
refusal r name fp taken =
    if name == []
    then some empty_name
    else if not (fp == []) && not (is_client_fingerprint fp)
    then some (unsupported_fingerprint fp)
    else if taken
    then some (already_exists name)
    else failed_draw r.short_id r.token

drawn : Result Str Str → Str
drawn (ok s) = s
drawn (err x) = []

unfoldable pub drawn_client : Fresh → Str → Str → Client
unfolding drawn
drawn_client r name fp = record {
  name = name;
  uuid = r.uuid;
  short_id = drawn r.short_id;
  token = drawn r.token;
  fingerprint = if fp == [] then random_client_fingerprint r.fingerprint else fp;
  created = r.now;
}

abbrev entered : Option StoreError → Client → Register → Answer × Register
entered (some x) c f = (err x, f)
entered none c f = (ok (some c), put c f)

-- One call on the register.
unfoldable pub answer : Call → Register → Answer × Register
answer (add r raw fp) f =
    let name = trim_space raw in
    entered (refusal r name fp (is_some (f name))) (drawn_client r name fp) f
answer (remove name) f =
    if is_some (f name) then (ok none, drop_name name f) else (err (not_found name), f)

unfoldable pub replay : List Call → Register → List Answer × Register
replay [] f = ([], f)
replay (op ∷ ops) f = let (o, f') = answer op f in let (os, f'') = replay ops f' in (o ∷ os, f'')

abbrev parsed : Result Str Client → Option Client
parsed (ok c) = some c
parsed (err x) = none

-- The name that a call's path is made of.
abbrev pub target : Call → Str
target (add r raw fp) = trim_space raw
target (remove name) = name

module _ {Text : Type 0} (unmarshal : Text → Result Str Client) where
  abbrev decoded : Option (Entry Text) → Option Client
  decoded none = none
  decoded (some n) = parsed (read_entry unmarshal n)

  unfoldable pub view : Dir Text → Register
  view d name = decoded (lookup (client_file_name name) d)

module _ {Text : Type 0} (marshal : Client → Result Str Text) (dir : Str) (e : Env Text) where
  -- One call on the directory.
  unfoldable pub apply : Call → Dir Text → Answer × Dir Text
  apply (add r raw fp) d =
      let (made, d') = add_client_with_fingerprint marshal dir e r raw fp d in (added made, d')
  apply (remove name) d = let (failure, d') = remove_client dir e name d in (removed failure, d')

  unfoldable pub run : List Call → Dir Text → List Answer × Dir Text
  run [] d = ([], d)
  run (op ∷ ops) d = let (o, d') = apply op d in let (os, d'') = run ops d' in (o ∷ os, d'')

abbrev made_of : Option StoreError → Client → Result StoreError Client
made_of (some x) c = err x
made_of none c = ok c

-- AddClientWithFingerprint up to the write refuses what the register refuses, and makes its client.
pub new_client-refusal :
    (r : Fresh) (name fp : Str) (taken : Bool)
    → new_client r name fp taken ≡ made_of (refusal r name fp taken) (drawn_client r name fp)
unfolding new_client refusal drawn_client
new_client-refusal r name fp taken = ground arith
