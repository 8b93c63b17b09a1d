-- ===== src/Geoipupdate/Examples.antt =====
-- A node whose rule-set is replaced, and whose reload then fails.
use rdda.Common.{str_eq, ◌≡◌, refl, none, some, codes}
use rdda.Common.Results.{ok}
use rdda.Geoipupdate.{atomic_write, Updater, RuNode, run}

abbrev fresh : Updater
fresh = record {
  fetch = ok (codes "new rule-set");
  validate = some (λ body. none);
  read_file = none;
  mkdir = none;
  write_tmp = none;
  rename = none;
  reload = some (some (codes "unit not found"));
}

abbrev aged : RuNode
aged = record { srs = some (codes "old rule-set"); reloads = 0 }

-- The new rule-set stays in place, and the failure is reported.
fresh_replaces :
    ((run fresh aged).1.srs ≡ some (codes "new rule-set"))
    × ((run fresh aged).0.failure ≡ some (codes "unit not found"))
unfolding run str_eq atomic_write
fresh_replaces = (refl, refl)
