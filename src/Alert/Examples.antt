-- ===== src/Alert/Examples.antt =====
-- A blocked exit and a stopped unit.
use rdda.Common.{str_eq, ◌∷◌, ◌≡◌, true, [], none, some, codes, ◌==◌, str_instance, not}
use rdda.Health.{reach_blocked}
use rdda.Alert.{AlertConfig, Seams, evaluate}
use rdda.Alert.Evaluation.{keys_of, evaluate-keys}

abbrev settings : AlertConfig
settings = record {
  enabled = true;
  email = codes "op@example.org";
  command = codes "msmtp";
  cert_warn_days = 14;
}

abbrev tuesday : Seams
tuesday = record {
  beat_age = some 60000000000;
  last_reach = some (record { status = reach_blocked; latency_ms = 0; detail = [] });
  unit_active = λ u. not (u == codes "rdda-sub");
  cert_not_after = none;
  now = 1700000000000000000;
}

-- Both are reported, the exit first.
tuesday_keys :
    keys_of (evaluate settings tuesday) ≡ codes "ru-exit-blocked" ∷ codes "unit-rdda-sub" ∷ []
unfolding rdda.Alert.Evaluation.is_stale rdda.Alert.Evaluation.exit_blocked rdda.Alert.is_blocked
    str_eq rdda.Alert.Evaluation.cert_expiring
tuesday_keys = evaluate-keys settings tuesday
