-- ===== src/Doctor/Checks.antt =====
-- internal/doctor/doctor.go: a check's result, the report, and the parsers of a configuration and of pull.env.
use rdda.Common.{
  ℕ, zero, suc, ◌-◌, Bool, true, false, not, List, [], ◌∷◌, ◌++◌, Option, none, some, Str, codes,
  ◌==◌, nat_eq, str_instance, ◌&&◌, if◌then◌else◌, trim_space, length, has_prefix,
}
use rdda.Common.Format.{decimal}

pub data Status : Type 0 where
  pass warn fail : Status

pub record Check : Type 0 where
  pub name : Str
  pub status : Status
  pub detail : Str
  pub hint : Str

abbrev pub check : Str → Status → Str → Str → Check
check name status detail hint = record {
  name = name;
  status = status;
  detail = detail;
  hint = hint;
}

abbrev pub is_fail : Status → Bool
is_fail fail = true
is_fail s = false

abbrev is_warn : Status → Bool
is_warn warn = true
is_warn s = false

abbrev is_pass : Status → Bool
is_pass pass = true
is_pass s = false

-- AnyFail
unfoldable pub any_fail : List Check → Bool
any_fail [] = false
any_fail (c ∷ cs) = let rest = any_fail cs in if is_fail c.status then true else rest

glyph : Status → Str
glyph pass = codes "✓"
glyph warn = codes "⚠"
glyph fail = codes "✗"

spaces : ℕ → Str
spaces zero = []
spaces (suc n) = b' ' ∷ spaces n

-- %-22s counts code points.
padded : Str → Str
unfolding spaces
padded s = s ++ spaces (22 - length s)

line : Check → Str
unfolding glyph padded
line c =
    codes "  "
    ++ glyph c.status
    ++ codes " "
    ++ padded c.name
    ++ codes " "
    ++ c.detail
    ++ codes "\n"
    ++ (if not (is_pass c.status) && not (c.hint == [])
        then codes "      → " ++ c.hint ++ codes "\n"
        else [])

lines : List Check → Str
unfolding line
lines [] = []
lines (c ∷ cs) = line c ++ lines cs

count : (Status → Bool) → List Check → ℕ
count p [] = 0
count p (c ∷ cs) = let rest = count p cs in if p c.status then suc rest else rest

-- Render
pub render : List Check → Str
unfolding lines count
render cs =
    lines cs
    ++ decimal (count is_warn cs)
    ++ codes " warning(s), "
    ++ decimal (count is_fail cs)
    ++ codes " failure(s)\n"

-- isConfigJSON on a text; `valid` is json.Valid.
unfoldable pub is_config_json : (Str → Bool) → Str → Bool
is_config_json valid body = let t = trim_space body in has_prefix t (codes "{") && valid t

cut_equals : Str → Option (Str × Str)
cut_equals [] = none
cut_equals (c ∷ s) =
    let rest = cut_equals s in
    if c == b'=' then some ([], s) else elim rest [ none ↦ none | some (k, v) ↦ some (c ∷ k, v) ]

set_key : Option (Str × Str) → Str × Str → Str × Str
set_key none env = env
set_key (some (k, v)) (from, token) =
    if k == codes "RDDA_PULL_FROM"
    then (v, token)
    else if k == codes "RDDA_PULL_TOKEN"
    then (from, v)
    else (from, token)

scan_env : List Str → Str × Str → Str × Str
unfolding cut_equals set_key
scan_env [] env = env
scan_env (l ∷ ls) env = scan_env ls (set_key (cut_equals (trim_space l)) env)

-- readPullEnv, on the lines that the scanner gives, or none where the file does not open.
unfoldable pub read_pull_env : Option (List Str) → Str × Str
unfolding scan_env
read_pull_env none = ([], [])
read_pull_env (some ls) = scan_env ls ([], [])
