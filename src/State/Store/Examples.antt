-- ===== src/State/Store/Examples.antt =====
-- A directory with one client, on a file system that does not fail; a client's file is the client.
use mathlib.Core.Bool.{true≢false}
use rdda.Common.{
  none-some, trim_space, has_prefix, split_on, drop_prefix, has_suffix, has_suffix-append,
  str_eq_iff, Bool-cases, inl, inr, sym, ap, ◌∙◌, ◌++◌, List, [], ◌∷◌, none, some, Str, codes, ◌≡◌,
  refl, true, false, str_eq,
}
use rdda.Common.Assoc.{lookup, insert, delete}
use rdda.Common.Paths.{join}
use rdda.Common.Results.{Result, ok, err}
use rdda.State.Clients.{Client}
use rdda.State.Fingerprint.{is_client_fingerprint}
use rdda.State.Store.{
  unreadable, file, Dir, Fresh, Env, client_file_name, client_path, entry_of, remove_client,
  new_client, write_file, add_client_with_fingerprint, not_found, already_exists,
  unsupported_fingerprint, clients_dir,
}
use rdda.State.Store.Register.{drawn_client, Call, add, remove, apply, view, run, replay}
use rdda.State.Store.Validity.{insert-IsValid, IsValid}
use rdda.State.Store.Refinement.{run_refines}

abbrev pub same_text : Client → Result Str Client
same_text = ok

abbrev pub etc : Str
etc = codes "/etc/rdda"

abbrev pub calm : Env Client
calm = record {
  stat_outside = λ path. false;
  write = λ path. none;
  torn = λ name. none;
  remove = λ path. none;
}

abbrev pub drawn : Fresh
drawn = record {
  fingerprint = ok 1;
  uuid = codes "6ba7b810-9dad-11d1-80b4-00c04fd430c8";
  short_id = ok (codes "0123abcd");
  token = ok (codes "secret");
  now = 1700000000;
}

abbrev pub ann : Client
ann = record {
  name = codes "ann";
  uuid = codes "11111111-2222-4333-8444-555555555555";
  short_id = codes "89abcdef";
  token = codes "anns";
  fingerprint = codes "safari";
  created = 1690000000;
}

-- The picture that `client qr` leaves beside the clients' files.
abbrev picture : Dir Client
picture = (codes "ann.png", unreadable (codes "denied")) ∷ []

abbrev pub one : Dir Client
one = (codes "ann.png", unreadable (codes "denied")) ∷ (codes "ann.json", file ann) ∷ []

picture_apart : (name : Str) → str_eq (codes "ann.png") (client_file_name name) ≡ false
unfolding client_file_name has_suffix str_eq
picture_apart name = elim (Bool-cases (str_eq (codes "ann.png") (name ++ codes ".json"))) [
  | inr apart ↦ apart
  | inl same ↦
      let ends : has_suffix (codes "ann.png") (codes ".json") ≡ true =
        ap (λ q. has_suffix q (codes ".json"))
          ((str_eq_iff (codes "ann.png") (name ++ codes ".json")).0 same)
        ∙ has_suffix-append name (codes ".json") in
      absurd (true≢false (sym ends))
]

picture-IsValid : IsValid same_text picture
unfolding lookup
picture-IsValid = (λ name n h. absurd (none-some (rw (picture_apart name) at h)), (refl, tt))

pub one-IsValid : IsValid same_text one
unfolding insert str_eq client_file_name
one-IsValid = insert-IsValid same_text picture ann ann refl picture-IsValid

abbrev calls : List Call
calls =
    add drawn (codes " bob ") []
    ∷ add drawn (codes "ann") []
    ∷ add drawn (codes "eve") (codes "chrome")
    ∷ remove (codes "ann")
    ∷ remove (codes "zed")
    ∷ []

-- The answers of the five calls.
calls_answers :
    (run same_text etc calm calls one).0
    ≡ ok (some (drawn_client drawn (codes "bob") []))
      ∷ err (already_exists (codes "ann"))
      ∷ err (unsupported_fingerprint (codes "chrome"))
      ∷ ok none
      ∷ err (not_found (codes "zed"))
      ∷ []
unfolding drawn_client run apply add_client_with_fingerprint remove_client new_client entry_of
    str_eq trim_space has_prefix clients_dir join client_path split_on drop_prefix lookup write_file
    insert is_client_fingerprint delete
calls_answers = refl

run_refines_example :
    IsValid same_text (run same_text etc calm calls one).1
    × (view same_text (run same_text etc calm calls one).1 ≡ (replay calls (view same_text one)).1)
    × ((run same_text etc calm calls one).0 ≡ (replay calls (view same_text one)).0)
unfolding entry_of has_prefix clients_dir join client_path split_on str_eq trim_space drop_prefix
run_refines_example =
    run_refines same_text same_text etc calm calls one (λ c. (c, refl, refl))
      ((λ path. refl), (λ path. refl)) (refl, (refl, (refl, (refl, (refl, tt))))) one-IsValid
