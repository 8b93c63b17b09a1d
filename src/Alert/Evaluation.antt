-- ===== src/Alert/Evaluation.antt =====
-- Which conditions one evaluation reports.
use rdda.Common.{
  ℕ, ◌+◌, ◌*◌, Bool, true, false, List, [], ◌∷◌, ◌++◌, Option, none, some, Str, codes, ◌==◌,
  str_instance, nat_eq, ◌≡◌, refl, ◌&&◌, not, ltb, arith, if◌then◌else◌, ap, append_assoc,
}
use rdda.Health.{Reach}
use rdda.Alert.{
  stale_after, Condition, AlertConfig, Seams, watched_units, day, evaluate, beat_conditions,
  unit_conditions, cert_conditions, is_blocked,
}

abbrev pub keys_of : List Condition → List Str
keys_of [] = []
keys_of (c ∷ cs) = c.key ∷ keys_of cs

keys_of-append : (xs ys : List Condition) → keys_of (xs ++ ys) ≡ keys_of xs ++ keys_of ys
keys_of-append [] ys = refl
keys_of-append (x ∷ xs) ys = ap (λ r. x.key ∷ r) (keys_of-append xs ys)

-- No beat, or one older than twenty minutes.
unfoldable pub is_stale : Option ℕ → Bool
is_stale none = true
is_stale (some age) = ltb stale_after age

unfoldable pub exit_blocked : Option Reach → Bool
exit_blocked none = false
exit_blocked (some r) = is_blocked r.status

unfoldable pub cert_expiring : AlertConfig → Seams → Bool
cert_expiring c s = elim s.cert_not_after [
  | none ↦ false
  | some t ↦ not (t == 0) && ltb t (s.now + c.cert_warn_days * day)
]

abbrev pub when : Bool → Str → List Str
when b k = if b then k ∷ [] else []

beat_keys :
    (age : Option ℕ) (reach : Option Reach)
    → keys_of (beat_conditions age reach)
      ≡ when (is_stale age) (codes "ru-down")
        ++ when (not (is_stale age) && exit_blocked reach) (codes "ru-exit-blocked")
unfolding beat_conditions is_stale exit_blocked
beat_keys none reach = refl
beat_keys (some age) none = ground arith
beat_keys (some age) (some r) = ground arith

unit_keys :
    (active : Str → Bool)
    → keys_of (unit_conditions active watched_units)
      ≡ when (not (active (codes "rdda-singbox"))) (codes "unit-rdda-singbox")
        ++ when (not (active (codes "rdda-sub"))) (codes "unit-rdda-sub")
        ++ when (not (active (codes "cloudflared"))) (codes "unit-cloudflared")
unfolding unit_conditions
unit_keys active = ground arith

cert_keys :
    (c : AlertConfig) (s : Seams)
    → keys_of (cert_conditions c s s.cert_not_after)
      ≡ when (cert_expiring c s) (codes "cert-expiry")
unfolding cert_conditions cert_expiring
cert_keys c s = ground arith

-- What an evaluation reports, in order: the RU node is down exactly when the beat is missing or older
-- than twenty minutes, its exit is blocked only under a fresh beat that says so, each of the three units
-- that is not active, and the certificate when its end is known and falls within the warning days.
pub evaluate-keys :
    (c : AlertConfig) (s : Seams)
    → keys_of (evaluate c s)
      ≡ when (is_stale s.beat_age) (codes "ru-down")
        ++ when (not (is_stale s.beat_age) && exit_blocked s.last_reach) (codes "ru-exit-blocked")
        ++ when (not (s.unit_active (codes "rdda-singbox"))) (codes "unit-rdda-singbox")
        ++ when (not (s.unit_active (codes "rdda-sub"))) (codes "unit-rdda-sub")
        ++ when (not (s.unit_active (codes "cloudflared"))) (codes "unit-cloudflared")
        ++ when (cert_expiring c s) (codes "cert-expiry")
unfolding evaluate
evaluate-keys c s = simp (keys_of-append, beat_keys, unit_keys, cert_keys, append_assoc)
