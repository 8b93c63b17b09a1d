-- ===== src/Doctor/Examples.antt =====
-- A healthy RU node, an EU node whose client file is root's, and the rendered destination.
use rdda.Common.{
  true, false, [], ◌∷◌, none, some, Str, codes, ◌≡◌, ◌↔◌, refl, ◌==◌, nat_eq, str_instance,
  if◌then◌else◌,
}
use rdda.Common.Results.{ok}
use rdda.Doctor.Checks.{any_fail}
use rdda.Doctor.Perms
use rdda.Doctor.Perms.{service_user_can_read}
use rdda.Doctor.RuNode
use rdda.Doctor.RuNode.{RuFiles, run_ru}
use rdda.Doctor.RuNode.Healthy.{RuHealthy, run_ru-RuHealthy}
use rdda.Doctor.EuNode.{EuFiles, run_eu}
use rdda.Doctor.EuNode.Healthy.{EuHealthy, run_eu-EuHealthy}
use rdda.Json.{null}
use rdda.State.Config.Examples.{eu}

-- The user rdda is 998; every file but one client's is its own.
abbrev perms : Perms.Seams
perms = record {
  svc_user = some (998, 998);
  stat_file = λ path.
      if path == codes "/etc/rdda/clients/ann.json"
      then some (record { uid = 0; gid = 0; mode = 0o600 })
      else some (record { uid = 998; gid = 998; mode = 0o600 });
  dir_files = λ path.
      if path == codes "/etc/rdda/clients" then codes "/etc/rdda/clients/ann.json" ∷ [] else [];
}

abbrev seams : RuNode.Seams
seams = record {
  unit_active = λ unit. true;
  http_probe = λ url token. ok (record { code = 200; body = codes "{}"; not_after = none });
  dial_dest = λ host port. none;
  valid_dest = λ host port. (true, []);
  egress = λ config url. ok true;
  cf_info = λ id. ok 1;
  perms = perms;
  now = 1700000000000000000;
  valid_json = λ s. true;
  parse = λ s. ok null;
}

abbrev etc : Str
etc = codes "/etc/rdda"

abbrev probe : Str
probe = codes "https://www.example.com"

abbrev ru : RuFiles
ru = record {
  singbox = ok (codes "{}");
  modified = some 1699999999000000000;
  pull_env = some (codes "RDDA_PULL_FROM=https://sub.example.com/ru/config" ∷ []);
}

abbrev eu_files : EuFiles
eu_files = record { opened = none; config = ok eu; clients = ok []; beat = ok none }

-- A file of root's with mode 0600 is not for the service user; with 0604 it is.
root_file : service_user_can_read (record { uid = 0; gid = 0; mode = 0o600 }) 998 998 ≡ false
unfolding service_user_can_read
root_file = refl

open_file : service_user_can_read (record { uid = 0; gid = 0; mode = 0o604 }) 998 998 ≡ true
unfolding service_user_can_read
open_file = refl

run_ru-RuHealthy_example :
    (any_fail (run_ru seams etc probe ru) ≡ false) ↔ RuHealthy seams etc probe ru
run_ru-RuHealthy_example = run_ru-RuHealthy seams etc probe ru

run_eu-EuHealthy_example :
    (any_fail (run_eu seams (λ doc. ok (codes "{}")) etc eu_files) ≡ false)
    ↔ EuHealthy seams (λ doc. ok (codes "{}")) etc eu_files
run_eu-EuHealthy_example = run_eu-EuHealthy seams (λ doc. ok (codes "{}")) etc eu_files
