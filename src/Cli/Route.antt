-- ===== src/Cli/Route.antt =====
-- internal/cli/route.go: `rdda route update-geoip`, and the question to sing-box behind `route test`. What
-- the fetches, sing-box and the file system answer are arguments; sing-box prints ASCII.
pub mod Refresh
mod Examples
use rdda.Common.{
  ℕ, zero, suc, ◌+◌, Bool, true, false, List, [], ◌∷◌, ◌++◌, Option, none, some, Str, codes, ◌==◌,
  nat_eq, str_instance, ◌&&◌, ◌||◌, if◌then◌else◌, contains, to_lower, trim_space,
}
use rdda.Common.Format.{decimal}
use rdda.Common.Results.{Result, ok, err}
use rdda.Geoipupdate.{
  Updater, RuNode, Report, Reason, nothing, SrsError, too_small, error_page, validate_srs, run,
}
use rdda.Selfupdate.Http.{Attempt, failed, response}
use rdda.Verify.{Bytes}

-- One attempt of fetchWithRetry: the body, or what it sets lastErr to.
pub outcome : Str → Attempt → Result Str Bytes
outcome url (failed x) = err x
outcome url (response code (err x)) = err x
outcome url (response code (ok b)) =
    if code == 200 then ok b else err (url ++ codes " → HTTP " ++ decimal code)

-- The loop from attempt n on, with the attempts left and lastErr.
pub fetch_from : Str → (ℕ → Attempt) → ℕ → ℕ → Str → Result Str Bytes
fetch_from url attempts zero n last = err last
fetch_from url attempts (suc left) n last = elim (outcome url (attempts n)) [
  | ok b ↦ ok b
  | err x ↦ fetch_from url attempts left (n + 1) x
]

pub fetch_with_retry : Str → (ℕ → Attempt) → Result Str Bytes
unfolding fetch_from
fetch_with_retry url attempts = fetch_from url attempts 4 1 []

-- sing-box's `rule-set match`: what it prints, and whether it exits with an error.
pub record Run : Type 0 where
  pub text : Str
  pub failed : Bool

srs_text : SrsError → Str
srs_text (too_small n) =
    codes "suspiciously small (" ++ decimal n ++ codes " bytes) — not a real geoip rule-set"
srs_text error_page = codes "looks like an HTML/JSON error page, not a binary rule-set"

-- sing-box cannot load the rule-set.
pub is_refused : Run → Bool
is_refused r = r.failed && contains (to_lower r.text) (codes "rule-set")

loaded : Run → Option Str
unfolding is_refused
loaded r =
    if is_refused r
    then some (codes "sing-box rejected the rule-set: " ++ trim_space r.text)
    else none

-- The load test, where sing-box is on the PATH and the copy could be written; otherwise it is passed over.
load_test : Option (Bytes → Run) → Bool → Bytes → Option Str
unfolding loaded
load_test none copied new = none
load_test (some box) false new = none
load_test (some box) true new = loaded (box new)

structural : Option SrsError → Option Str → Option Str
unfolding srs_text
structural (some x) next = some (srs_text x)
structural none next = next

pub validate_geoip : Option (Bytes → Run) → Bool → Bytes → Option Str
unfolding load_test structural
validate_geoip sing_box copied new = structural (validate_srs new) (load_test sing_box copied new)

-- realGeoIPMatch: matched, and whether that is an answer at all.
pub real_geoip_match : Run → Bool × Bool
real_geoip_match r =
    let low = to_lower r.text in
    if r.failed && (trim_space low == [])
    then (false, false)
    else if contains low (codes "no match") || contains low (codes "not match")
    then (false, true)
    else (contains low (codes "match"), true)

-- What one run of the command meets.
pub record Env : Type 0 where
  pub url : Str
  pub attempts : ℕ → Attempt
  pub sing_box : Option (Bytes → Run)
  pub copied : Bool
  pub read_file : Option Str
  pub mkdir : Option Str
  pub write_tmp : Option Str
  pub rename : Option Str
  pub reload : Option Str

unfoldable pub updater : Env → Updater
unfolding fetch_with_retry validate_geoip
updater e = record {
  fetch = fetch_with_retry e.url e.attempts;
  validate = some (validate_geoip e.sing_box e.copied);
  read_file = e.read_file;
  mkdir = e.mkdir;
  write_tmp = e.write_tmp;
  rename = e.rename;
  reload = some e.reload;
}

-- How the command ends: with a note on stderr, with an error, or with a line on stdout.
pub data Ending : Type 0 where
  kept_back : Reason → Ending
  fails : Reason → Ending
  fails_with : Str → Ending
  printed : Reason → Ending

failing : Reason → Str → Ending
failing nothing x = fails_with x
failing r x = fails r

without_skip : Reason → Option Str → Ending
unfolding failing
without_skip r (some x) = failing r x
without_skip r none = printed r

unfoldable pub ending : Report → Ending
unfolding without_skip
ending r = if r.skipped then kept_back r.reason else without_skip r.reason r.failure

unfoldable pub update_geoip : Env → RuNode → Ending × RuNode
unfolding updater ending
update_geoip e n = let (r, n') = run (updater e) n in (ending r, n')
