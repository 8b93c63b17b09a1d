-- ===== src/State/Beat/Examples.antt =====
-- A beat saved over an older one, on a disk whose rename fails.
use rdda.Common.{sym, [], none, some, codes, true}
use rdda.Common.Results.{ok}
use rdda.Health.{reach_ok}
use rdda.State.Beat.{RuHealth, BeatFiles, BeatEnv, absent, present, save_ru_health}
use rdda.State.Beat.RoundTrip.{load_ru_health-save_ru_health, SavedOrKept}

abbrev pub beat : RuHealth
beat = record {
  report = record {
    ts = 1700000000;
    singbox_active = true;
    nfqws_active = true;
    singbox_version = codes "1.8.0";
    rdda_version = codes "v0.9";
    reach = record { status = reach_ok; latency_ms = 40; detail = [] };
    pad = [];
  };
  received_at = 1700000001;
}

abbrev stuck : BeatEnv RuHealth
stuck = record { write = none; torn = absent; rename = some (codes "busy") }

abbrev older : BeatFiles RuHealth
older = record { current = present beat; temporary = absent }

load_ru_health-save_ru_health_example :
    SavedOrKept stuck ok ok beat older (save_ru_health stuck ok beat older)
load_ru_health-save_ru_health_example =
    load_ru_health-save_ru_health stuck ok ok beat older (λ t p. sym p)
