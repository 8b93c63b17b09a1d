-- ===== src/Cfsetup.antt =====
-- internal/cfsetup/cfsetup.go: reading what cloudflared prints. The regular expressions are written out as
-- searches; case folding is that of ASCII.
use rdda.Common.{
  ℕ, zero, suc, Bool, true, false, List, [], ◌∷◌, ◌++◌, Option, none, some, Str, codes, ◌==◌,
  nat_eq, str_instance, ◌&&◌, ◌||◌, if◌then◌else◌, leb, has_prefix, drop_prefix, trim_right,
  trim_space, to_lower, contains, split_on, fields, is_some,
}
use rdda.Common.Results.{Result, ok, err}

-- [0-9a-fA-F-]
is_id_char : ℕ → Bool
is_id_char c =
    (leb b'0' c && leb c b'9')
    || (leb b'a' c && leb c b'f')
    || (leb b'A' c && leb c b'F')
    || c == b'-'

-- The first n characters, if there are as many and all are of an id.
id_prefix : ℕ → Str → Option Str
unfolding is_id_char
id_prefix zero s = some []
id_prefix (suc n) [] = none
id_prefix (suc n) (c ∷ s) =
    let rest = id_prefix n s in
    if is_id_char c then (elim rest [ none ↦ none | some t ↦ some (c ∷ t) ]) else none

line_of : Str → Str
line_of [] = []
line_of (c ∷ s) = let rest = line_of s in if c == b'\n' then [] else c ∷ rest

or_first : {A : Type 0} → Option A → Option A → Option A
or_first none b = b
or_first (some a) b = some a

id_after : Str → Option Str
unfolding id_prefix
id_after s =
    if has_prefix s (codes " with id ")
    then id_prefix 36 (drop_prefix s (codes " with id "))
    else none

-- ".* with id ([0-9a-fA-F-]{36})" on a line: the greedy star takes the last place.
last_id : Str → Option Str
unfolding id_after or_first
last_id [] = none
last_id (c ∷ s) = or_first (last_id s) (id_after (c ∷ s))

created_at : Str → Option Str
unfolding last_id line_of
created_at s =
    if has_prefix s (codes "Created tunnel ")
    then last_id (line_of (drop_prefix s (codes "Created tunnel ")))
    else none

-- reCreatedID: the leftmost match.
created_id : Str → Option Str
unfolding created_at or_first
created_id [] = none
created_id (c ∷ s) = or_first (created_at (c ∷ s)) (created_id s)

-- \s of the regular expressions.
is_blank : ℕ → Bool
is_blank c = c == b' ' || c == b'\t' || c == b'\n' || c == 12 || c == b'\r'

-- "\S*?\.json" after the characters that are taken.
until_json : Str → Option Str
unfolding is_blank
until_json [] = none
until_json (c ∷ s) =
    let rest = until_json s in
    if has_prefix (c ∷ s) (codes ".json")
    then some (codes ".json")
    else if is_blank c
    then none
    else elim rest [ none ↦ none | some t ↦ some (c ∷ t) ]

-- "\S+?\.json": one character at least.
json_path : Str → Option Str
unfolding until_json is_blank
json_path [] = none
json_path (c ∷ s) =
    let rest = until_json s in
    if is_blank c then none else elim rest [ none ↦ none | some t ↦ some (c ∷ t) ]

creds_at : Str → Option Str
unfolding json_path
creds_at s =
    if has_prefix s (codes "credentials written to ")
    then json_path (drop_prefix s (codes "credentials written to "))
    else none

-- reCredsPath
creds_path : Str → Option Str
unfolding creds_at or_first
creds_path [] = none
creds_path (c ∷ s) = or_first (creds_at (c ∷ s)) (creds_path s)

trimmed : Option Str → Str
trimmed none = []
trimmed (some path) = trim_right (λ c. c == b'.') path

created : Option Str → Str → Result Str (Str × Str)
created none creds = err (codes "could not find tunnel id in create output")
created (some id) creds = ok (id, creds)

-- ParseCreate; an id that matches is not empty.
unfoldable pub parse_create : Str → Result Str (Str × Str)
unfolding created trimmed created_id creds_path
parse_create out = created (created_id out) (trimmed (creds_path out))

-- uuidRe.MatchString
has_id : Str → Bool
unfolding id_prefix
has_id [] = false
has_id (c ∷ s) = is_some (id_prefix 36 (c ∷ s)) || has_id s

row_id : Str → List Str → Option Str
unfolding has_id
row_id name [] = none
row_id name (a ∷ []) = none
row_id name (a ∷ b ∷ rest) = if b == name && has_id a then some a else none

find_row : Str → List Str → Option Str
unfolding row_id or_first
find_row name [] = none
find_row name (l ∷ ls) = or_first (row_id name (fields l)) (find_row name ls)

-- FindTunnelID; none is its error.
unfoldable pub find_tunnel_id : Str → Str → Option Str
unfolding find_row
find_tunnel_id listing name = find_row name (split_on b'\n' listing)

pub record RouteResult : Type 0 where
  pub is_ok : Bool
  pub conflict : Bool
  pub msg : Str

confirmed_at : Str → Bool
unfolding line_of
confirmed_at s =
    (has_prefix s (codes "added cname")
      || has_prefix s (codes "added record")
      || has_prefix s (codes "updated cname")
      || has_prefix s (codes "updated record"))
    && contains (line_of s) (codes "route to this tunnel")

-- reRouteOK on a text in lower case. None of the four beginnings overlaps the rest of the pattern.
confirmed : Str → Bool
unfolding confirmed_at
confirmed [] = false
confirmed (c ∷ s) = confirmed_at (c ∷ s) || confirmed s

abbrev with_error : Str → Option Str → Str
with_error out none = out
with_error out (some x) = out ++ codes " " ++ x

unconfirmed : Str → Option Str → RouteResult
unconfirmed out (some x) = record {
  is_ok = false;
  conflict = false;
  msg = codes "route dns failed: " ++ x;
}
unconfirmed out none = record {
  is_ok = false;
  conflict = false;
  msg = codes "route dns returned no confirmation: " ++ trim_space out;
}

-- ClassifyRouteDNS
unfoldable pub classify_route_dns : Str → Option Str → RouteResult
unfolding confirmed unconfirmed
classify_route_dns out error =
    if contains (to_lower (with_error out error)) (codes "already exists")
    then record {
      is_ok = false;
      conflict = true;
      msg =
          codes
            "a DNS record already exists for this hostname — delete it (or repoint it) so the route reaches this tunnel";
    }
    else if confirmed (to_lower out)
    then record { is_ok = true; conflict = false; msg = codes "routed to this tunnel" }
    else unconfirmed out error
