-- ===== src/Cli/Route/Refresh.antt =====
-- What a run of `rdda route update-geoip` leaves on the node, and how it ends.
use mathlib.Core.Bool.{true≢false}
use rdda.Common.{
  ℕ, zero, suc, ◌+◌, Bool, true, false, if◌then◌else◌, Option, none, some, Str, ◌≡◌, ◌≤◌, refl, inl,
  inr, ◌⊎◌, arith, some_inj, none-some, Bool-cases, sym, ap, ◌∙◌, [],
}
use rdda.Common.Results.{ok, Result-cases}
use rdda.Verify.{Bytes}
use rdda.Geoipupdate.{
  RuNode, Report, Reason, fetch_failed, validation_failed, reload_failed, already_current, updated,
  nothing, SrsError, validate_srs, atomic_write, run, validated,
}
use rdda.Geoipupdate.FailSafe.{Reported, run-Reported}
use rdda.Cli.Route
use rdda.Cli.Route.{
  outcome, fetch_from, fetch_with_retry, Run, is_refused, validate_geoip, Env, updater, Ending,
  kept_back, fails, fails_with, printed, ending, update_geoip,
}

-- The command's exit status is not 0.
abbrev pub is_failure : Ending → Bool
is_failure (kept_back r) = false
is_failure (fails r) = true
is_failure (fails_with x) = true
is_failure (printed r) = false

abbrev pub is_some : {A : Type 0} → Option A → Bool
is_some none = false
is_some (some x) = true

-- One of the four attempts brought this body.
abbrev pub Downloaded : Env → Bytes → Type 0
Downloaded e new = (i : ℕ) × (1 ≤ i) × (i ≤ 4) × (outcome e.url (e.attempts i) ≡ ok new)

-- The body passes the structural check, and sing-box, where the test could be run, did not refuse it.
abbrev pub Accepted : Env → Bytes → Type 0
Accepted e new =
    (validate_srs new ≡ none)
    × ((box : Bytes → Run) → e.sing_box ≡ some box → e.copied ≡ true → is_refused (box new) ≡ false)

abbrev pub Refreshed : Env → RuNode → Ending → RuNode → Type 0
Refreshed e n o n' =
    ((is_failure o ≡ false) × (n' ≡ n))
    ⊎ ((new : Bytes) × Downloaded e new
        × Accepted e new
        × (((is_failure o ≡ true) × (n' ≡ n) × ((x : Str) × (atomic_write (updater e) ≡ some x)))
            ⊎ ((is_failure o ≡ is_some e.reload) × (n'.srs ≡ some new))))

fetch_from-Downloaded :
    (e : Env) (left n : ℕ) (last : Str) (new : Bytes)
    → fetch_from e.url e.attempts left n last ≡ ok new
    → (i : ℕ) × (n ≤ i) × (i + 1 ≤ n + left) × (outcome e.url (e.attempts i) ≡ ok new)
unfolding fetch_from
fetch_from-Downloaded e zero n last new h = cc
fetch_from-Downloaded e (suc left) n last new h =
    elim (Result-cases (outcome e.url (e.attempts n))) [
      | inl (b, p) ↦ (n, omega arith, omega arith, p ∙ rw (fetch_from, p) at h)
      | inr (x, p) ↦
          let (i, low, high, q) =
            fetch_from-Downloaded e left (n + 1) x new (rw (fetch_from, p) at h) in
          (i, omega arith, omega arith, q)
    ]

fetch_with_retry-Downloaded :
    (e : Env) (new : Bytes) → fetch_with_retry e.url e.attempts ≡ ok new → Downloaded e new
unfolding fetch_with_retry
fetch_with_retry-Downloaded e new h =
    let (i, low, high, q) = fetch_from-Downloaded e 4 1 [] new h in (i, low, omega arith, q)

structural-none :
    (found : Option SrsError) (next : Option Str)
    → Route.structural found next ≡ none
    → (found ≡ none) × (next ≡ none)
unfolding Route.structural
structural-none none next h = (refl, h)
structural-none (some x) next h = absurd (none-some (sym h))

loaded-none : (r : Run) → Route.loaded r ≡ none → is_refused r ≡ false
unfolding Route.loaded
loaded-none r h = elim (Bool-cases (is_refused r)) [
  | inr good ↦ good
  | inl bad ↦ absurd (none-some (sym (rw bad at h)))
]

load_test-none :
    (sing_box : Option (Bytes → Run)) (copied : Bool) (new : Bytes) (box : Bytes → Run)
    → Route.load_test sing_box copied new ≡ none
    → sing_box ≡ some box
    → copied ≡ true
    → is_refused (box new) ≡ false
unfolding Route.load_test
load_test-none none copied new box h on wrote = absurd (none-some on)
load_test-none (some b) false new box h on wrote = absurd (true≢false (sym wrote))
load_test-none (some b) true new box h on wrote =
    ap (λ f. is_refused (f new)) (sym (some_inj on)) ∙ loaded-none (b new) h

validate_geoip-Accepted :
    (e : Env) (new : Bytes) → validate_geoip e.sing_box e.copied new ≡ none → Accepted e new
unfolding validate_geoip
validate_geoip-Accepted e new h =
    let (sound, rest) =
      structural-none (validate_srs new) (Route.load_test e.sing_box e.copied new) h in
    (sound, λ box on wrote. load_test-none e.sing_box e.copied new box rest on wrote)

failing_fails : (r : Reason) (x : Str) → is_failure (Route.failing r x) ≡ true
unfolding Route.failing
failing_fails (fetch_failed y) x = refl
failing_fails (validation_failed y) x = refl
failing_fails (reload_failed y) x = refl
failing_fails (already_current b) x = refl
failing_fails (updated b) x = refl
failing_fails nothing x = refl

without_skip_failure :
    (r : Reason) (failure : Option Str)
    → is_failure (Route.without_skip r failure) ≡ is_some failure
unfolding Route.without_skip
without_skip_failure r none = refl
without_skip_failure r (some x) = failing_fails r x

ending_skipped : (r : Report) → r.skipped ≡ true → is_failure (ending r) ≡ false
unfolding ending
ending_skipped r h =
    ap (λ b. is_failure (if b then kept_back r.reason else Route.without_skip r.reason r.failure)) h

ending_failure : (r : Report) → r.skipped ≡ false → is_failure (ending r) ≡ is_some r.failure
unfolding ending
ending_failure r h =
    ap (λ b. is_failure (if b then kept_back r.reason else Route.without_skip r.reason r.failure)) h
    ∙ without_skip_failure r.reason r.failure

concluded :
    (e : Env) (n : RuNode) (r : Report) (n' : RuNode)
    → Reported (updater e) n r n'
    → Refreshed e n (ending r) n'
unfolding updater validated
concluded e n r n' (inl (skipped, same)) = inl (ending_skipped r skipped, same)
concluded e n r n' (inr (kept, (new, f, v, inl (same, fine, current)))) =
    inl (ending_failure r kept ∙ ap is_some fine, same)
concluded e n r n' (inr (kept, (new, f, v, inr (inl (same, (x, failure, unwritten)))))) = inr (
  new,
  fetch_with_retry-Downloaded e new f,
  validate_geoip-Accepted e new v,
  inl (ending_failure r kept ∙ ap is_some failure, same, (x, unwritten)),
)
concluded e n r n' (inr (kept, (new, f, v, inr (inr (written, failure))))) = inr (
  new,
  fetch_with_retry-Downloaded e new f,
  validate_geoip-Accepted e new v,
  inr (ending_failure r kept ∙ ap is_some failure, written),
)

-- A run of the command ends without an error and leaves the node as it is; or one of the four attempts
-- brought a body that passes the structural check and that sing-box, where it could be asked, did not
-- refuse. Then the command fails and nothing is changed, because the file could not be written; or the
-- body is in place, and the command fails exactly where the reload does.
pub update_geoip-Refreshed :
    (e : Env) (n : RuNode) → Refreshed e n (update_geoip e n).0 (update_geoip e n).1
unfolding update_geoip
update_geoip-Refreshed e n =
    concluded e n (run (updater e) n).0 (run (updater e) n).1 (run-Reported (updater e) n)
