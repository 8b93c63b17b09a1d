-- ===== src/Cli/Route/Examples.antt =====
-- A refresh whose second attempt brings a rule-set, on a node without sing-box; the reload then fails.
use rdda.Common.{
  str_eq, trim_space, to_lower, contains, ℕ, zero, suc, true, false, [], ◌∷◌, none, some, codes,
  ◌≡◌, refl,
}
use rdda.Common.Results.{ok}
use rdda.Geoipupdate.{RuNode}
use rdda.Selfupdate.Http.{Attempt, failed, response}
use rdda.Verify.{Bytes}
use rdda.Cli.Route.{Env, update_geoip, real_geoip_match}
use rdda.Cli.Route.Refresh.{Refreshed, update_geoip-Refreshed}

abbrev copies : ℕ → Bytes
copies zero = []
copies (suc n) = 0x53 ∷ copies n

abbrev flaky : ℕ → Attempt
flaky zero = failed (codes "timeout")
flaky (suc zero) = response 503 (ok [])
flaky (suc (suc n)) = response 200 (ok (copies 600))

abbrev evening : Env
evening = record {
  url = codes "https://example.org/geoip-ru.srs";
  attempts = flaky;
  sing_box = none;
  copied = true;
  read_file = none;
  mkdir = none;
  write_tmp = none;
  rename = none;
  reload = some (codes "unit not found");
}

abbrev aged : RuNode
aged = record { srs = some (copies 520); reloads = 0 }

update_geoip-Refreshed_example :
    Refreshed evening aged (update_geoip evening aged).0 (update_geoip evening aged).1
update_geoip-Refreshed_example = update_geoip-Refreshed evening aged

-- sing-box says "match" also where it says that there is none.
no_match :
    real_geoip_match (record { text = codes "No match found"; failed = true }) ≡ (false, true)
unfolding real_geoip_match str_eq trim_space to_lower contains
no_match = refl

-- A rule-set that cannot be read is a determinate answer: no match.
unread :
    real_geoip_match
      (record { text = codes "FATAL open geoip-ru.srs: no such file"; failed = true })
    ≡ (false, true)
unfolding real_geoip_match str_eq trim_space to_lower contains
unread = refl
