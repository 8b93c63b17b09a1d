-- ===== src/Alert.antt =====
-- internal/alert/alert.go: the conditions of the EU node, and the mails on their transitions. What the
-- engine's seams answer (the beat, the units, the certificate, the clock, the mailer) are arguments; a
-- mailer's answer may depend on every mail that was attempted before.
pub mod Sending
pub mod Evaluation
mod Examples
use rdda.Common.{
  ℕ, ◌+◌, ◌*◌, ◌/◌, Bool, true, false, List, [], ◌∷◌, ◌++◌, Option, none, some, Str, codes, ◌==◌,
  ◌||◌, ◌&&◌, not, str_instance, ltb, if◌then◌else◌, is_some, str_lt, nat_eq,
}
use rdda.Common.Assoc.{lookup, insert, keys}
use rdda.Common.Sorting.{sort}
use rdda.Common.Format.{round_seconds, show_seconds, show_day, decimal}
use rdda.Health.{Reach, ReachStatus, reach_ok, reach_blocked, reach_unknown}

abbrev pub stale_after : ℕ
stale_after = 20 * 60 * 1000000000

pub record Condition : Type 0 where
  pub key : Str
  pub message : Str

-- state.Alert, with the defaults that New applies.
pub record AlertConfig : Type 0 where
  pub enabled : Bool
  pub email : Str
  pub command : Str
  pub cert_warn_days : ℕ

pub with_defaults : AlertConfig → AlertConfig
with_defaults c = record {
  enabled = c.enabled;
  email = c.email;
  command = if c.command == [] then codes "msmtp" else c.command;
  cert_warn_days = if c.cert_warn_days == 0 then 14 else c.cert_warn_days;
}

-- What the seams answer in one run: the age of the last beat, its reachability, the units, the leaf
-- certificate's end (0 is Go's zero time) and the clock, in nanoseconds. A beat
-- from the future has age 0 here, which Go's negative age is treated like.
pub record Seams : Type 0 where
  pub beat_age : Option ℕ
  pub last_reach : Option Reach
  pub unit_active : Str → Bool
  pub cert_not_after : Option ℕ
  pub now : ℕ

unfoldable pub is_blocked : ReachStatus → Bool
is_blocked reach_ok = false
is_blocked reach_blocked = true
is_blocked reach_unknown = false

blocked_message : Str → Str
blocked_message detail =
    let msg = codes "RU exit path blocked — units up but no reachability through the tunnel" in
    if detail == [] then msg else msg ++ codes " (" ++ detail ++ codes ")"

reach_conditions : Option Reach → List Condition
unfolding is_blocked blocked_message
reach_conditions none = []
reach_conditions (some r) =
    if is_blocked r.status
    then record { key = codes "ru-exit-blocked"; message = blocked_message r.detail } ∷ []
    else []

-- The switch on the beat's age; reachability counts only while the beat is fresh.
beat_conditions : Option ℕ → Option Reach → List Condition
unfolding reach_conditions round_seconds show_seconds
beat_conditions none reach =
    record { key = codes "ru-down"; message = codes "RU node down — no health beat received yet" }
    ∷ []
beat_conditions (some age) reach =
    if ltb stale_after age
    then record {
      key = codes "ru-down";
      message = codes "RU node down — no health beat in " ++ show_seconds (round_seconds age);
    }
      ∷ []
    else reach_conditions reach

abbrev pub watched_units : List Str
watched_units = codes "rdda-singbox" ∷ codes "rdda-sub" ∷ codes "cloudflared" ∷ []

unit_conditions : (Str → Bool) → List Str → List Condition
unit_conditions active [] = []
unit_conditions active (u ∷ us) =
    let rest = unit_conditions active us in
    if active u
    then rest
    else record {
      key = codes "unit-" ++ u;
      message = codes "EU unit " ++ u ++ codes " is not active";
    }
      ∷ rest

abbrev pub day : ℕ
day = 24 * 60 * 60 * 1000000000

cert_conditions : AlertConfig → Seams → Option ℕ → List Condition
unfolding show_day decimal
cert_conditions c s none = []
cert_conditions c s (some not_after) =
    if not (not_after == 0) && ltb not_after (s.now + c.cert_warn_days * day)
    then record {
      key = codes "cert-expiry";
      message =
          codes "TLS cert expires "
          ++ show_day (not_after / day)
          ++ codes " (< "
          ++ decimal c.cert_warn_days
          ++ codes " days)";
    }
      ∷ []
    else []

pub evaluate : AlertConfig → Seams → List Condition
evaluate c s =
    beat_conditions s.beat_age s.last_reach
    ++ unit_conditions s.unit_active watched_units
    ++ cert_conditions c s s.cert_not_after
