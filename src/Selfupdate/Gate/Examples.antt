-- ===== src/Selfupdate/Gate/Examples.antt =====
-- A release with a toy signature scheme, and a build with no usable key.
use rdda.Common.{true, none, some, codes, refl, []}
use rdda.Common.Results.{ok, err}
use rdda.Verify.{key_placeholder}
use rdda.Selfupdate.Disk.{Node, Env}
use rdda.Selfupdate.Gate.{Updater, update}
use rdda.Selfupdate.Gate.Trust.{Ended, update-Ended}

abbrev quiet : Env
quiet = record {
  fault = λ k. none;
  torn = λ k. none;
  masked = λ m. 0o755;
  run_version = λ k f. ok (codes "v2");
  unit_exists = λ k. true;
  restart = λ k. none;
  is_active = λ k. true;
}

abbrev node : Node
node = record {
  bin = some (record { bytes = codes "old"; mode = 0o755 });
  prev = none;
  staged = none;
  calls = 0;
}

abbrev unsigned : Updater
unsigned = record {
  arch = codes "amd64";
  current = codes "v1";
  resolve_tag = ok (codes "v2");
  fetch =
      λ tag arch. ok (record { bin = codes "new"; sums = codes "00  rdda-linux-amd64"; sig = [] });
  load_key = err key_placeholder;
  crypto = record { ed25519_verify = λ k m s. true; blake2b_512 = λ m. m };
  sha256_hex = λ b. codes "00";
}

update-Ended_example : Ended unsigned quiet (codes "old") node (update unsigned quiet node)
update-Ended_example = update-Ended unsigned quiet (codes "old") node refl
