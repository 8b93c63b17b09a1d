-- ===== src/Doctor/EuNode.antt =====
-- internal/doctor/doctor.go: runEU, its checks, and Run. Times are nanoseconds; the last beat did not
-- arrive in the future.
pub mod Healthy
use rdda.Common.{
  ℕ, ◌+◌, ◌-◌, ◌*◌, ◌/◌, Bool, true, false, not, List, [], ◌∷◌, ◌++◌, Option, none, some, Str,
  codes, ◌==◌, nat_eq, str_instance, ◌||◌, if◌then◌else◌, ltb,
}
use rdda.Common.Format.{decimal, round_seconds, show_seconds, show_day}
use rdda.Common.Results.{Result, ok, err}
use rdda.Doctor.Checks.{Status, pass, warn, fail, Check, check}
use rdda.Doctor.Perms.{perms_check}
use rdda.Doctor.Probes.{Answer}
use rdda.Doctor.RuNode.{Seams, RuFiles, endpoint_check, run_ru}
use rdda.Json.{Json}
use rdda.Singboxconf.Nodes.{render_ru, render_eu}
use rdda.State.Beat.{RuHealth}
use rdda.State.Clients.{Client}
use rdda.State.Config.{Config}

-- What the store of the EU node gives: state.Open, LoadConfig, ListClients and LoadRUHealth.
pub record EuFiles : Type 0 where
  pub opened : Option Str
  pub config : Result Str Config
  pub clients : Result Str (List Client)
  pub beat : Result Str (Option RuHealth)

abbrev pub day : ℕ
day = 86400 * 1000000000

abbrev pub eu_units : List Str
eu_units = codes "rdda-singbox" ∷ codes "rdda-sub" ∷ codes "cloudflared" ∷ []

-- strings.Join
joined : Str → List Str → Str
joined sep [] = []
joined sep (x ∷ []) = x
joined sep (x ∷ y ∷ xs) = x ++ sep ++ joined sep (y ∷ xs)

inactive : (Str → Bool) → List Str → List Str
inactive active [] = []
inactive active (u ∷ us) = let rest = inactive active us in if active u then rest else u ∷ rest

units_verdict : List Str → Check
unfolding joined
units_verdict [] =
    check (codes "units") pass (codes "rdda-singbox, rdda-sub, cloudflared active") []
units_verdict (u ∷ us) =
    check (codes "units") fail (codes "not active: " ++ joined (codes ", ") (u ∷ us))
      (codes "systemctl status " ++ joined (codes " ") (u ∷ us))

-- %v of an error that may be nil.
shown_error : Result Str Str → Str
shown_error (ok text) = codes "<nil>"
shown_error (err x) = x

rendered : Result Str Str → Result Str Str → Check
unfolding shown_error
rendered (ok ru) (ok eu) = check (codes "config") pass (codes "render ru/eu OK") []
rendered (ok ru) (err x) =
    check (codes "config") fail
      (codes "render failed (ru=" ++ shown_error (ok ru) ++ codes " eu=" ++ x ++ codes ")")
      (codes "check config.yaml fields")
rendered (err x) eu =
    check (codes "config") fail
      (codes "render failed (ru=" ++ x ++ codes " eu=" ++ shown_error eu ++ codes ")")
      (codes "check config.yaml fields")

pub or_none : Result Str (List Client) → List Client
or_none (ok cs) = cs
or_none (err x) = []

expiring : ℕ → Option ℕ → List Check
expiring now none = []
expiring now (some t) =
    if ltb t (now + 30 * day)
    then check (codes "cert expiry") warn (codes "TLS cert expires " ++ show_day (t / day))
        (codes "renew the public TLS cert")
      ∷ []
    else []

expiry_of : Result Str Answer → Option ℕ
expiry_of (err x) = none
expiry_of (ok a) = a.not_after

beat_age : ℕ → Check
beat_age age =
    if ltb 1200 age
    then check (codes "RU beat") warn (codes "stale — " ++ show_seconds age ++ codes " ago")
        (codes "the RU node may be down")
    else check (codes "RU beat") pass (show_seconds age ++ codes " ago") []

no_beat : Check
no_beat =
    check (codes "RU beat") warn (codes "no health beat received yet")
      (codes "check rdda-health.timer on the RU node")

beat_check : ℕ → Result Str (Option RuHealth) → Check
unfolding beat_age no_beat
beat_check now (err x) = no_beat
beat_check now (ok none) = no_beat
beat_check now (ok (some h)) = beat_age (round_seconds (now - h.received_at))

connectors : Result Str ℕ → Check
connectors (err x) = check (codes "cloudflared") warn (codes "could not query: " ++ x) []
connectors (ok n) =
    if ltb n 1
    then check (codes "cloudflared") warn (codes "no live tunnel connectors")
        (codes "is cloudflared connected?")
    else check (codes "cloudflared") pass (decimal n ++ codes " connector(s)") []

module _ (s : Seams) (print : Json → Result Str Str) where
  pub sub_url : Config → Str
  sub_url cfg = codes "https://" ++ cfg.cloudflare.sub_hostname ++ codes "/ru/config"

  sub_checks : Config → List Check
  unfolding sub_url expiring expiry_of
  sub_checks cfg =
      let url = sub_url cfg in
      let answer = s.http_probe url cfg.pull_token in
      if cfg.cloudflare.sub_hostname == [] || cfg.pull_token == []
      then check (codes "sub endpoint") warn (codes "Cloudflare sub endpoint not configured") []
        ∷ []
      else endpoint_check s (codes "sub endpoint") url
          (codes "check the Cloudflare tunnel + rdda-sub")
          (codes
            "sub host isn't routed to this tunnel (stale/conflicting DNS record?) — cloudflared tunnel route dns, delete any old record first")
          answer
        ∷ expiring s.now (expiry_of answer)

  tunnel_checks : Config → List Check
  unfolding connectors
  tunnel_checks cfg =
      if cfg.cloudflare.tunnel_id == []
      then []
      else connectors (s.cf_info cfg.cloudflare.tunnel_id) ∷ []

  loaded : Str → EuFiles → Result Str Config → List Check
  unfolding rendered or_none sub_checks beat_check tunnel_checks
  loaded dir f (err x) =
      check (codes "config") fail (codes "config.yaml unreadable: " ++ x)
        (codes "fix or restore /etc/rdda/config.yaml")
      ∷ []
  loaded dir f (ok cfg) =
      rendered (print (render_ru cfg (or_none f.clients))) (print (render_eu cfg))
      ∷ perms_check s.perms dir (codes "singbox.json" ∷ codes "config.yaml" ∷ codes "clients" ∷ [])
      ∷ (sub_checks cfg ++ beat_check s.now f.beat ∷ tunnel_checks cfg)

  store_checks : Str → EuFiles → Option Str → List Check
  unfolding loaded
  store_checks dir f (some x) =
      check (codes "config") fail (codes "cannot open state dir: " ++ x) [] ∷ []
  store_checks dir f none = loaded dir f f.config

  -- runEU
  unfoldable pub run_eu : Str → EuFiles → List Check
  unfolding inactive units_verdict store_checks
  run_eu dir f = units_verdict (inactive s.unit_active eu_units) ∷ store_checks dir f f.opened

  -- Run: the role is the EU node's where config.yaml is there.
  unfoldable pub run : Bool → Str → Str → EuFiles → RuFiles → List Check
  run has_config dir url eu ru = if has_config then run_eu dir eu else run_ru s dir url ru
