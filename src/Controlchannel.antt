-- ===== src/Controlchannel.antt =====
-- internal/controlchannel/controlchannel.go: the pull.env file of the RU node. url.Parse is an argument.
pub mod EnvFile
mod Examples
use rdda.Common.{
  ℕ, Bool, List, [], ◌∷◌, ◌++◌, Str, codes, ◌==◌, nat_eq, str_instance, ◌||◌, if◌then◌else◌,
  trim_space, contains,
}
use rdda.Common.Results.{Result, ok, err}

pub data EnvError : Type 0 where
  host_required token_required : EnvError

-- What stands before the first slash or question mark.
pub before_path : Str → Str
before_path [] = []
before_path (c ∷ s) = let rest = before_path s in if c == b'/' || c == b'?' then [] else c ∷ rest

-- The host of a URL, where it parses and has one.
or_bare : Str → Result Str Str → Str
or_bare h (err x) = trim_space (before_path h)
or_bare h (ok host) = if host == [] then trim_space (before_path h) else host

module _ (url_host : Str → Result Str Str) where
  host_of : Str → Str
  unfolding or_bare
  host_of h =
      if h == []
      then []
      else if contains h (codes "://")
      then or_bare h (url_host h)
      else trim_space (before_path h)

  -- normalizeHost
  pub normalize_host : Str → Str
  unfolding host_of
  normalize_host sub_host = host_of (trim_space sub_host)

abbrev pub notice : Str
notice =
    codes "# rdda control channel — generated by `rdda control-channel init`; do not hand-edit."

abbrev pub pull_line : Str → Str
pull_line host = codes "RDDA_PULL_FROM=https://" ++ (host ++ codes "/ru/config")

abbrev pub health_line : Str → Str
health_line host = codes "RDDA_HEALTH_TO=https://" ++ (host ++ codes "/ru/health")

abbrev pub token_line : Str → Str
token_line token = codes "RDDA_PULL_TOKEN=" ++ token

-- fmt.Fprintf of a line.
pub write_lines : List Str → Str
write_lines [] = []
write_lines (l ∷ ls) = l ++ (10 ∷ write_lines ls)

pub env_text : Str → Str → Str
unfolding write_lines
env_text host token =
    write_lines (notice ∷ pull_line host ∷ health_line host ∷ token_line token ∷ [])

pub render_env : (Str → Result Str Str) → Str → Str → Result EnvError Str
render_env url_host sub_host token =
    let host = normalize_host url_host sub_host in
    if host == []
    then err host_required
    else if trim_space token == []
    then err token_required
    else ok (env_text host (trim_space token))
