-- ===== src/Geoipupdate.antt =====
-- internal/geoipupdate/geoipupdate.go: refreshing the RU node's rule-set. The seams of the Updater and
-- the file system's answers are arguments; SHA-256 enters only the text of a reason.
pub mod FailSafe
mod Examples
use rdda.Common.{
  suc, ℕ, Bool, true, false, List, [], ◌∷◌, Option, none, some, Str, codes, ◌==◌, nat_eq,
  str_instance, ◌||◌, ltb, length, if◌then◌else◌,
}
use rdda.Common.Results.{Result, ok, err}
use rdda.Verify.{Bytes}

-- What the seams and the file system answer in one run; a nil seam is none.
pub record Updater : Type 0 where
  pub fetch : Result Str Bytes
  pub validate : Option (Bytes → Option Str)
  pub read_file : Option Str
  pub mkdir : Option Str
  pub write_tmp : Option Str
  pub rename : Option Str
  pub reload : Option (Option Str)

-- The rule-set on disk and how often sing-box was told to reload.
pub record RuNode : Type 0 where
  pub srs : Option Bytes
  pub reloads : ℕ

pub data Reason : Type 0 where
  fetch_failed validation_failed reload_failed : Str → Reason
  already_current updated : Bytes → Reason
  nothing : Reason

pub record Report : Type 0 where
  pub changed : Bool
  pub skipped : Bool
  pub reason : Reason
  pub failure : Option Str

abbrev skip : Reason → Str → Report
skip r x = record { changed = false; skipped = true; reason = r; failure = some x }

-- ValidateSRS: the body is not tiny, and does not look like a page or a JSON document.
pub data SrsError : Type 0 where
  too_small : ℕ → SrsError
  error_page : SrsError

trim_blank : Bytes → Bytes
trim_blank [] = []
trim_blank (b ∷ bs) =
    let rest = trim_blank bs in if b == b' ' || b == 9 || b == 13 || b == 10 then rest else b ∷ bs

looks_like_page : Bytes → Bool
looks_like_page [] = false
looks_like_page (b ∷ bs) = b == b'<' || b == b'{'

pub validate_srs : Bytes → Option SrsError
unfolding trim_blank looks_like_page
validate_srs body =
    if ltb (length body) 512
    then some (too_small (length body))
    else if looks_like_page (trim_blank body)
    then some error_page
    else none

-- The existing file is read, and it holds the same bytes.
pub same_bytes : Option Str → Option Bytes → Bytes → Bool
same_bytes (some x) cur new = false
same_bytes none none new = false
same_bytes none (some cur) new = cur == new

-- atomicWrite: a temporary file, renamed over the rule-set.
first_failure : Option Str → Option Str → Option Str
first_failure (some x) next = some x
first_failure none next = next

pub atomic_write : Updater → Option Str
unfolding first_failure
atomic_write u = first_failure u.mkdir (first_failure u.write_tmp u.rename)

-- The reload, after the new file is in place.
reloaded : Option (Option Str) → Bytes → RuNode → Report × RuNode
reloaded none new n =
    (record { changed = true; skipped = false; reason = updated new; failure = none }, n)
reloaded (some none) new n = (
  record { changed = true; skipped = false; reason = updated new; failure = none },
  record n { reloads = suc n.reloads },
)
reloaded (some (some x)) new n = (
  record { changed = true; skipped = false; reason = reload_failed x; failure = some x },
  record n { reloads = suc n.reloads },
)

after_write : Updater → Option Str → Bytes → RuNode → Report × RuNode
unfolding reloaded
after_write u (some x) new n =
    (record { changed = false; skipped = false; reason = nothing; failure = some x }, n)
after_write u none new n = reloaded u.reload new (record n { srs = some new })

after_validate : Updater → Option Str → Bytes → RuNode → Report × RuNode
unfolding after_write same_bytes
after_validate u (some x) new n = (skip (validation_failed x) x, n)
after_validate u none new n =
    if same_bytes u.read_file n.srs new
    then (
      record { changed = false; skipped = false; reason = already_current new; failure = none },
      n,
    )
    else after_write u (atomic_write u) new n

unfoldable pub validated : Option (Bytes → Option Str) → Bytes → Option Str
validated none new = none
validated (some f) new = f new

after_fetch : Updater → Result Str Bytes → RuNode → Report × RuNode
unfolding after_validate validated
after_fetch u (err x) n = (skip (fetch_failed x) x, n)
after_fetch u (ok new) n = after_validate u (validated u.validate new) new n

-- Run
pub run : Updater → RuNode → Report × RuNode
unfolding after_fetch
run u n = after_fetch u u.fetch n
