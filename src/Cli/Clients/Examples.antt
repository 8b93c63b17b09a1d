-- ===== src/Cli/Clients/Examples.antt =====
-- The client of a directory, looked up by name and by token.
use rdda.Common.{none, some, Str, codes, ◌≡◌, ◌≢◌, refl, ◌⊎◌, str_eq}
use rdda.Common.Assoc.{lookup}
use rdda.Common.Results.{ok}
use rdda.State.Clients.{Client}
use rdda.State.Store.{client_by_token, client_file_name, read_entry}
use rdda.State.Store.Register.{view}
use rdda.State.Store.Examples.{same_text, one, ann, one-IsValid}
use rdda.Cli.Clients.{find_client_by_name, found_or}
use rdda.Cli.Clients.Lookup.{find_client_by_name-view, client_by_token-view}

view_of_ann : view same_text one (codes "ann") ≡ some ann
unfolding view lookup client_file_name str_eq read_entry
view_of_ann = refl

find_client_by_name-view_example :
    find_client_by_name same_text (ok one) (codes "ann")
    ≡ found_or (codes "ann") (view same_text one (codes "ann"))
find_client_by_name-view_example = find_client_by_name-view same_text one (codes "ann") one-IsValid

client_by_token-view_example :
    ((c : Client) × (client_by_token same_text (ok one) (codes "anns") ≡ ok (some c))
      × (c.token ≡ codes "anns")
      × (view same_text one c.name ≡ some c))
    ⊎ ((client_by_token same_text (ok one) (codes "anns") ≡ ok none)
        × ((name : Str) (c : Client) → view same_text one name ≡ some c → c.token ≢ codes "anns"))
client_by_token-view_example = client_by_token-view same_text one (codes "anns") one-IsValid
