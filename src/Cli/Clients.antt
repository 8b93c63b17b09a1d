-- ===== src/Cli/Clients.antt =====
-- internal/cli/cli.go: the client commands' lookup by name.
pub mod Listing
pub mod Lookup
mod Examples
use rdda.Common.{List, [], ◌∷◌, Option, none, some, Str, ◌==◌, str_instance, if◌then◌else◌}
use rdda.Common.Results.{Result, ok, err, ◌>>=◌}
use rdda.State.Clients.{Client}
use rdda.State.Store.{Dir, list_clients}

pub data FindError : Type 0 where
  list_failed no_client : Str → FindError

-- The loop over the list.
unfoldable pub find_name : Str → List Client → Option Client
find_name name [] = none
find_name name (c ∷ cs) = if c.name == name then some c else find_name name cs

unfoldable pub found_or : Str → Option Client → Result FindError Client
found_or name none = err (no_client name)
found_or name (some c) = ok c

lift_list : Result Str (List Client) → Result FindError (List Client)
lift_list (ok cs) = ok cs
lift_list (err x) = err (list_failed x)

-- findClientByName, on what ReadDir gave.
unfoldable pub find_client_by_name :
    {Text : Type 0}
    → (Text → Result Str Client)
    → Result Str (Dir Text)
    → Str
    → Result FindError Client
unfolding find_name found_or lift_list
find_client_by_name unmarshal listing name = do
  cs ← lift_list (list_clients unmarshal listing)
  found_or name (find_name name cs)
