-- ===== src/Pull/Examples.antt =====
-- A pull whose configuration is installed, and whose reload fails.
use rdda.Common.{true, none, some, codes}
use rdda.Common.Results.{ok}
use rdda.Pull.{Env, Options, RuNode, run}
use rdda.Pull.FailClosed.{Ended, pull-Ended}

abbrev answering : Env
answering = record {
  build = λ url. none;
  fetch = λ request. ok (record { status = 200; body = ok (codes "{\"route\":{}}") });
  decode_object = λ body. none;
  create_temp = none;
  write = none;
  close = none;
  chmod = none;
  rename = none;
  reload = some (codes "unit not found");
}

abbrev options : Options
options = record {
  url = codes "https://sub.example.com/ru/config";
  token = codes "secret";
  has_reload = true;
}

abbrev before_pull : RuNode
before_pull = record { config = some (codes "{}"); reloads = 0 }

pull-Ended_example :
    Ended answering options before_pull
      (run answering options before_pull).0
      (run answering options before_pull).1
pull-Ended_example = pull-Ended answering options before_pull
