-- ===== src/Tunnelprobe/Examples.antt =====
-- A probe that gets through at its second try, and its client for one deployment.
use rdda.Common.{ℕ, zero, suc, true, [], ◌∷◌, none, Str, codes}
use rdda.Common.Format.{decimal}
use rdda.Common.Results.{Result, ok}
use rdda.Json.{Json}
use rdda.Singboxconf.Nodes.{render_ru}
use rdda.State.Config.Examples.{eu}
use rdda.State.Store.Examples.{ann}
use rdda.Tunnelprobe.Probing.{Fetch, no_answer, answer, Env, probe}
use rdda.Tunnelprobe.Probing.Attempts.{Sensed, probe-Sensed}

abbrev public_of : Str → Result Str Str
public_of k = ok (codes "public")

abbrev printed : Json → Result Str Str
printed j = ok (codes "{}")

abbrev calm : Env
calm = record {
  on_path = true;
  free_port = ok 40000;
  mkdir = none;
  write = none;
  start = none;
  dialer = none;
}

-- The SOCKS listener comes up after the first try.
abbrev second_try : ℕ → Fetch
second_try zero = no_answer (codes "connection refused")
second_try (suc i) = answer 204 120000000

abbrev document : Result Str Json
document = ok (render_ru eu (ann ∷ []))

probe-Sensed_example :
    Sensed calm public_of printed document second_try
      (probe calm public_of printed decimal document second_try)
probe-Sensed_example = probe-Sensed calm public_of printed decimal document second_try
