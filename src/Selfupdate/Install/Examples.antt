-- ===== src/Selfupdate/Install/Examples.antt =====
-- A good node, and a release whose self-check fails.
use rdda.Common.{true, none, some, codes, refl, ◌==◌, str_instance, if◌then◌else◌}
use rdda.Common.Results.{ok, err}
use rdda.Selfupdate.Disk.{Node, Env}
use rdda.Selfupdate.Install.{install}
use rdda.Selfupdate.Install.Safety.{After, install-After}

abbrev pub healthy : Env
healthy = record {
  fault = λ k. none;
  torn = λ k. none;
  masked = λ m. 0o750;
  run_version =
      λ k f. if f.bytes == codes "new" then ok (codes "v2") else err (codes "exec format error");
  unit_exists = λ k. true;
  restart = λ k. none;
  is_active = λ k. true;
}

abbrev pub node : Node
node = record {
  bin = some (record { bytes = codes "old"; mode = 0o755 });
  prev = none;
  staged = none;
  calls = 0;
}

install-After_example :
    After healthy
      (codes "v2")
      (codes "old")
      (codes "new")
      (install healthy (codes "v2") (codes "new") node).0
      (install healthy (codes "v2") (codes "new") node).1
install-After_example = install-After healthy (codes "v2") (codes "old") (codes "new") node refl
