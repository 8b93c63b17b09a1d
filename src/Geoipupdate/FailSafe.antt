-- ===== src/Geoipupdate/FailSafe.antt =====
-- A refresh never takes the rule-set away, and reloads only for new data.
use rdda.Common.{
  true, false, Option, none, some, Str, ◌≡◌, refl, inl, inr, ◌⊎◌, str_instance, Bool-cases,
}
use rdda.Common.Results.{Result, ok, err}
use rdda.Verify.{Bytes}
use rdda.Geoipupdate.{
  Updater, RuNode, Report, run, after_fetch, after_validate, validated, after_write, reloaded,
  atomic_write, same_bytes,
}

-- How a refresh ends: nothing has changed, or the fetched rule-set is in place, to which the validator
-- had no objection, and which is not what the node was read to have.
abbrev pub Ended : Updater → RuNode → Report → RuNode → Type 0
Ended u n r n' =
    ((r.changed ≡ false) × (n' ≡ n))
    ⊎ ((r.changed ≡ true)
        × ((new : Bytes) × (u.fetch ≡ ok new)
            × (validated u.validate new ≡ none)
            × (same_bytes u.read_file n.srs new ≡ false)
            × (n'.srs ≡ some new)))

reloaded_srs :
    (reload : Option (Option Str)) (new : Bytes) (n : RuNode)
    → ((reloaded reload new n).0.changed ≡ true) × ((reloaded reload new n).1.srs ≡ n.srs)
unfolding reloaded
reloaded_srs none new n = (refl, refl)
reloaded_srs (some none) new n = (refl, refl)
reloaded_srs (some (some x)) new n = (refl, refl)

after_write-Ended :
    (u : Updater) (failure : Option Str) (new : Bytes) (n : RuNode)
    → u.fetch ≡ ok new
    → validated u.validate new ≡ none
    → same_bytes u.read_file n.srs new ≡ false
    → Ended u n (after_write u failure new n).0 (after_write u failure new n).1
unfolding after_write
after_write-Ended u (some x) new n f v d = inl (refl, refl)
after_write-Ended u none new n f v d =
    let (changed, srs) = reloaded_srs u.reload new (record n { srs = some new }) in
    inr (changed, (new, f, v, d, srs))

after_validate-Ended :
    (u : Updater) (failure : Option Str) (new : Bytes) (n : RuNode)
    → u.fetch ≡ ok new
    → validated u.validate new ≡ failure
    → Ended u n (after_validate u failure new n).0 (after_validate u failure new n).1
unfolding after_validate
after_validate-Ended u (some x) new n f v = inl (refl, refl)
after_validate-Ended u none new n f v = elim (Bool-cases (same_bytes u.read_file n.srs new)) [
  | inl same ↦ rw same (inl (refl, refl))
  | inr differs ↦ rw differs (after_write-Ended u (atomic_write u) new n f v differs)
]

after_fetch-Ended :
    (u : Updater) (fetched : Result Str Bytes) (n : RuNode)
    → u.fetch ≡ fetched
    → Ended u n (after_fetch u fetched n).0 (after_fetch u fetched n).1
unfolding after_fetch
after_fetch-Ended u (err x) n f = inl (refl, refl)
after_fetch-Ended u (ok new) n f = after_validate-Ended u (validated u.validate new) new n f refl

-- Whatever fails, a refresh either leaves the rule-set and sing-box alone and says that nothing changed,
-- or it says that it did, and the fetched rule-set is in place, which passed the validator and differs
-- from what was read on the node.
pub run-Ended : (u : Updater) (n : RuNode) → Ended u n (run u n).0 (run u n).1
unfolding run
run-Ended u n = after_fetch-Ended u u.fetch n refl

-- The error of the reload seam.
abbrev pub reload_failure : Option (Option Str) → Option Str
reload_failure none = none
reload_failure (some failure) = failure

-- How a refresh reports: it is skipped for a fetch or a body that was refused, or nothing is written, since
-- the node has the same bytes or the write failed, or the body is in place, with the reload's error.
abbrev pub Reported : Updater → RuNode → Report → RuNode → Type 0
Reported u n r n' =
    ((r.skipped ≡ true) × (n' ≡ n))
    ⊎ ((r.skipped ≡ false)
        × ((new : Bytes) × (u.fetch ≡ ok new)
            × (validated u.validate new ≡ none)
            × (((n' ≡ n) × (r.failure ≡ none) × (same_bytes u.read_file n.srs new ≡ true))
                ⊎ (((n' ≡ n) × ((x : Str) × (r.failure ≡ some x) × (atomic_write u ≡ some x)))
                    ⊎ ((n'.srs ≡ some new) × (r.failure ≡ reload_failure u.reload))))))

reloaded_failure :
    (reload : Option (Option Str)) (new : Bytes) (n : RuNode)
    → ((reloaded reload new n).0.skipped ≡ false)
      × ((reloaded reload new n).0.failure ≡ reload_failure reload)
unfolding reloaded
reloaded_failure none new n = (refl, refl)
reloaded_failure (some none) new n = (refl, refl)
reloaded_failure (some (some x)) new n = (refl, refl)

after_write-Reported :
    (u : Updater) (failure : Option Str) (new : Bytes) (n : RuNode)
    → u.fetch ≡ ok new
    → validated u.validate new ≡ none
    → atomic_write u ≡ failure
    → Reported u n (after_write u failure new n).0 (after_write u failure new n).1
unfolding after_write
after_write-Reported u (some x) new n f v w =
    inr (refl, (new, f, v, inr (inl (refl, (x, refl, w)))))
after_write-Reported u none new n f v w =
    let n' = record n { srs = some new } in
    let (skipped, failure) = reloaded_failure u.reload new n' in
    inr (skipped, (new, f, v, inr (inr ((reloaded_srs u.reload new n').1, failure))))

after_validate-Reported :
    (u : Updater) (failure : Option Str) (new : Bytes) (n : RuNode)
    → u.fetch ≡ ok new
    → validated u.validate new ≡ failure
    → Reported u n (after_validate u failure new n).0 (after_validate u failure new n).1
unfolding after_validate
after_validate-Reported u (some x) new n f v = inl (refl, refl)
after_validate-Reported u none new n f v = elim (Bool-cases (same_bytes u.read_file n.srs new)) [
  | inl same ↦ rw same (inr (refl, (new, f, v, inl (refl, refl, same))))
  | inr differs ↦ rw differs (after_write-Reported u (atomic_write u) new n f v refl)
]

after_fetch-Reported :
    (u : Updater) (fetched : Result Str Bytes) (n : RuNode)
    → u.fetch ≡ fetched
    → Reported u n (after_fetch u fetched n).0 (after_fetch u fetched n).1
unfolding after_fetch
after_fetch-Reported u (err x) n f = inl (refl, refl)
after_fetch-Reported u (ok new) n f =
    after_validate-Reported u (validated u.validate new) new n f refl

pub run-Reported : (u : Updater) (n : RuNode) → Reported u n (run u n).0 (run u n).1
unfolding run
run-Reported u n = after_fetch-Reported u u.fetch n refl
