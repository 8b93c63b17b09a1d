-- ===== src/Doctor/RuNode.antt =====
-- internal/doctor/doctor.go: runRU and its checks. json.Valid and the JSON parser are arguments. A file's
-- modification time is not in the future.
pub mod Healthy
use rdda.Common.{
  ℕ, suc, ◌-◌, Bool, true, false, not, List, [], ◌∷◌, ◌++◌, Option, none, some, Str, codes, ◌==◌,
  nat_eq, str_instance, if◌then◌else◌, ltb,
}
use rdda.Common.Format.{decimal, round_seconds, show_seconds}
use rdda.Common.Results.{Result, ok, err}
use rdda.Doctor.Checks.{Status, pass, warn, fail, Check, check, is_config_json, read_pull_env}
use rdda.Doctor.Perms.{perms_check}
use rdda.Doctor.Perms
use rdda.Doctor.Probes.{Answer, reality_dest_from_config, legacy_shared}
use rdda.Json.{ℤ, pos, negsuc, Json}

-- The seams that the checks call.
pub record Seams : Type 0 where
  pub unit_active : Str → Bool
  pub http_probe : Str → Str → Result Str Answer
  pub dial_dest : Str → ℤ → Option Str
  pub valid_dest : Str → ℤ → Bool × Str
  pub egress : Str → Str → Result Str Bool
  pub cf_info : Str → Result Str ℕ
  pub perms : Perms.Seams
  pub now : ℕ
  pub valid_json : Str → Bool
  pub parse : Str → Result Str Json

-- The RU node's files: singbox.json and when it was written, and the lines of pull.env.
pub record RuFiles : Type 0 where
  pub singbox : Result Str Str
  pub modified : Option ℕ
  pub pull_env : Option (List Str)

abbrev pub decimal_int : ℤ → Str
decimal_int (pos n) = decimal n
decimal_int (negsuc n) = codes "-" ++ decimal (suc n)

module _ (s : Seams) where
  units_check : Check
  units_check =
      if s.unit_active (codes "rdda-singbox")
      then check (codes "units") pass (codes "rdda-singbox active") []
      else check (codes "units") fail (codes "rdda-singbox not active")
          (codes "systemctl status rdda-singbox; journalctl -u rdda-singbox")

  weak : Str → ℤ → Bool × Str → Check
  weak host port (true, reason) =
      check (codes "REALITY dest") pass
        (host ++ codes ":" ++ decimal_int port ++ codes " validates (TLS 1.3 + h2 + valid cert)") []
  weak host port (false, reason) =
      check (codes "REALITY dest") warn
        (host
          ++ codes ":"
          ++ decimal_int port
          ++ codes " reachable but weak as a REALITY dest: "
          ++ reason)
        (codes
          "run `rdda dest discover --write` on the EU node for a validating dest, then re-render")

  dialed : Str → ℤ → Option Str → Check
  unfolding weak
  dialed host port (some x) =
      check (codes "REALITY dest") fail
        (host ++ codes ":" ++ decimal_int port ++ codes " unreachable: " ++ x)
        (codes
          "pick a --client-sni reachable from this RU node (or `rdda dest discover --write`), then re-render")
  dialed host port none =
      if legacy_shared host
      then check (codes "REALITY dest") warn
          (host
            ++ codes
                " is the legacy shared default — every deployment shipped it (a fleet-wide signature)")
          (codes
            "run `rdda dest discover --write` on the EU node for a per-node dest, then re-render")
      else weak host port (s.valid_dest host port)

  dest_found : Option (Str × ℤ) → Check
  unfolding dialed
  dest_found none =
      check (codes "REALITY dest") warn (codes "no REALITY inbound in singbox.json") []
  dest_found (some (host, port)) = dialed host port (s.dial_dest host port)

  dest_check : Result Str Str → Check
  unfolding dest_found
  dest_check (err x) =
      check (codes "REALITY dest") warn (codes "no singbox.json to read the dest from")
        (codes "render + install the RU config first")
  dest_check (ok sb) = dest_found (reality_dest_from_config (s.parse sb))

  -- The judgement of an answer of /ru/config; the hints differ between the two nodes.
  pub endpoint_check : Str → Str → Str → Str → Result Str Answer → Check
  endpoint_check name url down misrouted (err x) = check name fail (url ++ codes ": " ++ x) down
  endpoint_check name url down misrouted (ok a) =
      if not (a.code == 200)
      then check name fail (url ++ codes " → " ++ decimal a.code)
          (codes "token mismatch or sub-server error")
      else if not (is_config_json s.valid_json a.body)
      then check name fail (url ++ codes " → 200 but not the RU config") misrouted
      else check name pass (url ++ codes " → 200 (config)") []

  control_check : Str × Str → Check
  unfolding endpoint_check
  control_check (from, token) =
      if from == []
      then check (codes "control channel") warn (codes "pull not configured (/etc/rdda/pull.env)")
          []
      else endpoint_check (codes "control channel") from
          (codes "check Cloudflare/cloudflared and the EU sub server")
          (codes
            "hostname not routed to the tunnel (stale/conflicting DNS record?) — it's serving a wrong origin")
          (s.http_probe from token)

  last_pull_check : Option ℕ → Check
  last_pull_check none = check (codes "last pull") warn (codes "no singbox.json") []
  last_pull_check (some modified) =
      let age = round_seconds (s.now - modified) in
      if ltb 1800 age
      then check (codes "last pull") warn (show_seconds age ++ codes " ago")
          (codes "is rdda-pull.timer running?")
      else check (codes "last pull") pass (show_seconds age ++ codes " ago") []

  egress_result : Str → Result Str Bool → Check
  egress_result url (err x) =
      check (codes "end-to-end egress") warn (codes "inconclusive: " ++ x)
        (codes "needs sing-box on PATH; run the probe manually to debug")
  egress_result url (ok true) =
      check (codes "end-to-end egress") pass (codes "fetched " ++ url ++ codes " via the tunnel") []
  egress_result url (ok false) =
      check (codes "end-to-end egress") fail
        (codes "could not fetch " ++ url ++ codes " via the tunnel")
        (codes "the RU→EU tunnel or the EU exit is down")

  egress_check : Str → Result Str Str → Check
  unfolding egress_result
  egress_check url (err x) = check (codes "end-to-end egress") warn (codes "no singbox.json") []
  egress_check url (ok sb) = egress_result url (s.egress sb url)

  -- runRU
  unfoldable pub run_ru : Str → Str → RuFiles → List Check
  unfolding units_check dest_check control_check last_pull_check egress_check
  run_ru dir url f =
      units_check
      ∷ dest_check f.singbox
      ∷ control_check (read_pull_env f.pull_env)
      ∷ last_pull_check f.modified
      ∷ perms_check s.perms dir (codes "singbox.json" ∷ codes "pull.env" ∷ [])
      ∷ egress_check url f.singbox
      ∷ []
