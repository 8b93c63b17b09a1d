-- ===== src/Dest/Examples.antt =====
-- Three hosts, the nearest of which does not validate.
use mathlib.Core.List.{Perm}
use rdda.Common.{
  true, false, List, [], ◌∷◌, Str, codes, ◌==◌, str_instance, ◌≡◌, map, if◌then◌else◌,
}
use rdda.Dest.{Probed, no_reason, no_tls13, discover, best}
use rdda.Dest.Ranking.{nearest, best-discover}

abbrev far_host : Str
far_host = codes "far.example.com"

abbrev near_host : Str
near_host = codes "near.example.com"

abbrev answer : Str → Probed
answer h =
    if h == far_host
    then record { host = h; is_ok = true; rtt = 90; reason = no_reason }
    else if h == near_host
    then record { host = h; is_ok = true; rtt = 20; reason = no_reason }
    else record { host = h; is_ok = false; rtt = 5; reason = no_tls13 }

abbrev three_hosts : List Str
three_hosts = far_host ∷ codes "old.example.com" ∷ near_host ∷ []

best-discover_example :
    Perm (discover answer three_hosts) (map answer three_hosts)
    × (best (discover answer three_hosts) ≡ nearest (map answer three_hosts))
best-discover_example = best-discover answer three_hosts
