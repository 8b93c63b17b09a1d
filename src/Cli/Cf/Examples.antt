-- ===== src/Cli/Cf/Examples.antt =====
-- A setup on a world that is the list of the commands run, the last one first. Every command prints what
-- `tunnel create` prints, so no route is confirmed, and none is said to exist.
use rdda.Common.{
  true, false, List, [], ◌∷◌, none, Str, codes, ◌≡◌, refl, str_eq, Bool, has_prefix, drop_prefix,
  contains, to_lower, trim_space,
}
use rdda.Cfconfig
use rdda.Cfsetup.{parse_create, classify_route_dns}
use rdda.Common.Results.{ok}
use rdda.Cli.Cf.{Env, Options, route_all, route_dns, enable_service, run_cf_setup}
use rdda.Cli.Cf.Gate.{SetUp, run_cf_setup-SetUp, run_cf_setup_dry}
use rdda.State.Config.{cf_enabled}
use rdda.State.Config.Examples.{eu}

abbrev env : Bool → Env (List Str)
env dry = record {
  dry_run = dry;
  home = codes "/root";
  has_cloudflared = λ w. true;
  exists = λ path w. true;
  open_state = λ w. (none, codes "open" ∷ w);
  load_config = λ w. ok eu;
  run = λ cmd w. (
    (codes "Created tunnel rdda with id 6ba7b810-9dad-11d1-80b4-00c04fd430c8", none),
    codes "run" ∷ w,
  );
  run_attached = λ cmd w. (none, codes "login" ∷ w);
  mkdir_all = λ path w. (none, codes "mkdir" ∷ w);
  read_file = λ path w. ok (codes "{}");
  write_file = λ path text w. (none, codes "write" ∷ w);
  save_config = λ cfg w. (none, codes "save" ∷ w);
  print = λ doc. ok (codes "tunnel: t");
}

abbrev options : Options
options = record {
  tunnel_name = codes "rdda";
  tunnel_host = codes "t.example.com";
  sub_host = codes "s.example.com";
}

abbrev ran : List Str
ran =
    codes "run"
    ∷ codes "run"
    ∷ codes "run"
    ∷ codes "run"
    ∷ codes "save"
    ∷ codes "run"
    ∷ codes "run"
    ∷ codes "write"
    ∷ codes "mkdir"
    ∷ codes "run"
    ∷ codes "open"
    ∷ []

-- Two routes that cloudflared has not confirmed, and the setup ends without an error.
set_up : run_cf_setup (env false) options [] ≡ (ok tt, ran)
unfolding run_cf_setup str_eq parse_create has_prefix drop_prefix Cfconfig.render cf_enabled
    route_all route_dns enable_service classify_route_dns contains to_lower trim_space
set_up = refl

run_cf_setup-SetUp_example :
    (((env false).open_state []).0 ≡ none) × SetUp (env false) options (codes "open" ∷ []) ran
run_cf_setup-SetUp_example = run_cf_setup-SetUp (env false) options [] ran refl set_up

run_cf_setup_dry_example : (run_cf_setup (env true) options []).1 ≡ codes "open" ∷ []
run_cf_setup_dry_example = run_cf_setup_dry (env true) options [] refl
