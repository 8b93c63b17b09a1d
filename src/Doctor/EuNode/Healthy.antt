-- ===== src/Doctor/EuNode/Healthy.antt =====
-- The EU node's report against the conditions that its checks are about.
use mathlib.Core.Bool.{true≢false}
use mathlib.Core.Path.{subst}
use rdda.Common.{
  ℕ, Bool, true, false, List, [], ◌∷◌, ◌++◌, Option, none, some, Str, codes, ◌==◌, nat_eq,
  str_instance, ◌≡◌, ◌≢◌, ◌↔◌, refl, sym, ◌∙◌, arith, Bool-cases, inl, inr, eq_iff, All, none-some,
}
use rdda.Common.Results.{Result, ok, err, ok_inj, err≢ok}
use rdda.Doctor.Checks.{Check, is_fail, any_fail}
use rdda.Doctor.Perms.{perms_check}
use rdda.Doctor.Perms.Readable.{NoFail, AllReadable, perms_check-NoFail}
use rdda.Doctor.RuNode.{Seams}
use rdda.Doctor.RuNode.Healthy.{any_fail_nothing, any_fail-cons, Serves, endpoint_check-Serves}
use rdda.Doctor.EuNode
use rdda.Doctor.EuNode.{EuFiles, eu_units, run_eu, sub_url}
use rdda.Json.{Json}
use rdda.Singboxconf.Nodes.{render_ru, render_eu}
use rdda.State.Config.{Config}

any_fail-append :
    (xs ys : List Check)
    → (any_fail (xs ++ ys) ≡ false) ↔ ((any_fail xs ≡ false) × (any_fail ys ≡ false))
unfolding any_fail
any_fail-append [] ys = (λ p. (refl, p), λ p. p.1)
any_fail-append (x ∷ xs) ys = elim (Bool-cases (is_fail x.status)) [
  | inl b ↦ rw b (λ p. absurd (true≢false p), λ p. absurd (true≢false p.0))
  | inr b ↦ rw b (any_fail-append xs ys)
]

units-active :
    (active : Str → Bool) (us : List Str)
    → (EuNode.inactive active us ≡ []) ↔ All (λ u. active u ≡ true) us
unfolding EuNode.inactive
units-active active [] = (λ p. tt, λ p. refl)
units-active active (u ∷ us) = elim (Bool-cases (active u)) [
  | inl b ↦ rw b (λ p. (refl, (units-active active us).0 p), λ p. (units-active active us).1 p.1)
  | inr b ↦ rw b (λ p. cc, λ p. absurd (true≢false (sym p.0)))
]

units_verdict-NoFail : (us : List Str) → NoFail (EuNode.units_verdict us) ↔ (us ≡ [])
unfolding EuNode.units_verdict
units_verdict-NoFail [] = (λ p. refl, λ p. refl)
units_verdict-NoFail (u ∷ us) = (λ p. absurd (true≢false p), λ p. cc)

-- Both documents are printed.
abbrev pub Renders : Result Str Str → Result Str Str → Type 0
Renders ru eu = (a : Str) × (b : Str) × (ru ≡ ok a) × (eu ≡ ok b)

rendered-Renders : (ru eu : Result Str Str) → NoFail (EuNode.rendered ru eu) ↔ Renders ru eu
unfolding EuNode.rendered
rendered-Renders (ok a) (ok b) = (λ p. (a, b, refl, refl), λ p. refl)
rendered-Renders (ok a) (err x) = (λ p. absurd (true≢false p), λ (c, d, p, q). absurd (err≢ok q))
rendered-Renders (err x) eu = (λ p. absurd (true≢false p), λ (c, d, p, q). absurd (err≢ok p))

expiring-any_fail : (now : ℕ) (t : Option ℕ) → any_fail (EuNode.expiring now t) ≡ false
unfolding EuNode.expiring any_fail
expiring-any_fail now none = refl
expiring-any_fail now (some t) = ground arith

beat_check-NoFail :
    (now : ℕ) (b : Result Str (Option EuNode.RuHealth)) → NoFail (EuNode.beat_check now b)
unfolding EuNode.beat_check EuNode.no_beat EuNode.beat_age
beat_check-NoFail now (err x) = refl
beat_check-NoFail now (ok none) = refl
beat_check-NoFail now (ok (some h)) = ground arith

connectors-NoFail : (r : Result Str ℕ) → NoFail (EuNode.connectors r)
unfolding EuNode.connectors
connectors-NoFail (err x) = refl
connectors-NoFail (ok n) = ground arith

apart : (v : Str) → (v == []) ≡ false → v ≢ []
apart v b p = true≢false (sym ((eq_iff v []).1 p) ∙ b)

module _ (s : Seams) (print : Json → Result Str Str) where
  tunnel_checks-any_fail : (cfg : Config) → any_fail (EuNode.tunnel_checks s print cfg) ≡ false
  unfolding EuNode.tunnel_checks any_fail
  tunnel_checks-any_fail cfg = elim (Bool-cases (cfg.cloudflare.tunnel_id == [])) [
    | inl b ↦ rw b refl
    | inr b ↦ rw (b, connectors-NoFail (s.cf_info cfg.cloudflare.tunnel_id)) refl
  ]

  -- Where the subscription's host and the pull token are set, the endpoint serves the configuration.
  abbrev pub Subscribes : Config → Type 0
  Subscribes cfg =
      cfg.cloudflare.sub_hostname ≢ []
      → cfg.pull_token ≢ []
      → Serves s (s.http_probe (sub_url s print cfg) cfg.pull_token)

  sub_checks-Subscribes :
      (cfg : Config) → (any_fail (EuNode.sub_checks s print cfg) ≡ false) ↔ Subscribes cfg
  unfolding EuNode.sub_checks
  sub_checks-Subscribes cfg = elim (Bool-cases (cfg.cloudflare.sub_hostname == [])) [
    | inl h ↦ rw h (
      λ p set. absurd (set ((eq_iff cfg.cloudflare.sub_hostname []).0 h)),
      λ q. (any_fail-cons _ _).1 (refl, any_fail_nothing),
    )
    | inr h ↦ elim (Bool-cases (cfg.pull_token == [])) [
      | inl t ↦
          rw (h, t)
            (
              λ p set tok. absurd (tok ((eq_iff cfg.pull_token []).0 t)),
              λ q. (any_fail-cons _ _).1 (refl, any_fail_nothing),
            )
      | inr t ↦
          rw (h, t)
            (
              λ p set tok.
                  (endpoint_check-Serves s _ _ _ _
                      (s.http_probe (sub_url s print cfg) cfg.pull_token)).0
                    ((any_fail-cons _ _).0 p).0,
              λ q. (any_fail-cons _ _).1 (
                (endpoint_check-Serves s _ _ _ _
                      (s.http_probe (sub_url s print cfg) cfg.pull_token)).1
                    (q (apart _ h) (apart _ t)),
                expiring-any_fail s.now
                    (EuNode.expiry_of (s.http_probe (sub_url s print cfg) cfg.pull_token)),
              ),
            )
    ]
  ]

abbrev eu_entries : List Str
eu_entries = codes "singbox.json" ∷ codes "config.yaml" ∷ codes "clients" ∷ []

-- What the EU node needs: its three units run, the state directory opens, the configuration loads and both
-- nodes' documents render, the service user, if there is one, can read the files that are there, and the
-- subscription's endpoint, if it is set up, serves the RU node's configuration.
pub record EuHealthy (s : Seams) (print : Json → Result Str Str) (dir : Str) (f : EuFiles)
    : Type 0 where
  pub active : All (λ u. s.unit_active u ≡ true) eu_units
  pub opens : f.opened ≡ none
  pub cfg : Config
  pub loads : f.config ≡ ok cfg
  pub renders : Renders (print (render_ru cfg (EuNode.or_none f.clients))) (print (render_eu cfg))
  pub readable :
      (uid gid : ℕ)
      → s.perms.svc_user ≡ some (uid, gid)
      → AllReadable s.perms uid gid dir eu_entries
  pub serves : Subscribes s print cfg

module _ (s : Seams) (print : Json → Result Str Str) (dir : Str) (f : EuFiles) where
  -- What follows a configuration that loads.
  abbrev Runs : Config → Type 0
  Runs cfg =
      Renders (print (render_ru cfg (EuNode.or_none f.clients))) (print (render_eu cfg))
      × NoFail (perms_check s.perms dir eu_entries)
      × Subscribes s print cfg

  loaded-Runs :
      (r : Result Str Config)
      → (any_fail (EuNode.loaded s print dir f r) ≡ false)
        ↔ ((cfg : Config) × (r ≡ ok cfg) × Runs cfg)
  unfolding EuNode.loaded
  loaded-Runs (err x) =
      (λ p. absurd (true≢false ((any_fail-cons _ _).0 p).0), λ (cfg, q, runs). absurd (err≢ok q))
  loaded-Runs (ok cfg) = (
    λ p.
        let (render, p1) = (any_fail-cons _ _).0 p in
        let (perms, p2) = (any_fail-cons _ _).0 p1 in
        let (sub, p3) = (any_fail-append _ _).0 p2 in
        (
          cfg,
          refl,
          ((rendered-Renders _ _).0 render, perms, (sub_checks-Subscribes s print cfg).0 sub),
        ),
    λ (c, q, runs).
        let (render, perms, sub) = subst Runs (sym (ok_inj q)) runs in
        (any_fail-cons _ _).1 (
          (rendered-Renders _ _).1 render,
          (any_fail-cons _ _).1 (
            perms,
            (any_fail-append _ _).1 (
              (sub_checks-Subscribes s print cfg).1 sub,
              (any_fail-cons _ _).1
                  (beat_check-NoFail s.now f.beat, tunnel_checks-any_fail s print cfg),
            ),
          ),
        ),
  )

  store_checks-Runs :
      (opened : Option Str)
      → (any_fail (EuNode.store_checks s print dir f opened) ≡ false)
        ↔ ((opened ≡ none) × ((cfg : Config) × (f.config ≡ ok cfg) × Runs cfg))
  unfolding EuNode.store_checks
  store_checks-Runs (some x) =
      (λ p. absurd (true≢false ((any_fail-cons _ _).0 p).0), λ h. absurd (none-some (sym h.0)))
  store_checks-Runs none =
      (λ p. (refl, (loaded-Runs f.config).0 p), λ h. (loaded-Runs f.config).1 h.1)

  -- The EU node's report has no failure exactly where its three units run, the state directory opens and
  -- its configuration loads, both nodes' documents render, the service user, if there is one, can read the
  -- files that are there, and the subscription's endpoint, if it is set up, serves the RU node's
  -- configuration.
  pub run_eu-EuHealthy : (any_fail (run_eu s print dir f) ≡ false) ↔ EuHealthy s print dir f
  unfolding run_eu
  run_eu-EuHealthy = (
    λ p.
        let (units, p1) = (any_fail-cons _ _).0 p in
        let (opens, (cfg, loads, (renders, perms, serves))) = (store_checks-Runs f.opened).0 p1 in
        record {
          active = (units-active s.unit_active eu_units).0 ((units_verdict-NoFail _).0 units);
          opens = opens;
          cfg = cfg;
          loads = loads;
          renders = renders;
          readable = (perms_check-NoFail s.perms dir eu_entries).0 perms;
          serves = serves;
        },
    λ h. (any_fail-cons _ _).1 (
      (units_verdict-NoFail _).1 ((units-active s.unit_active eu_units).1 h.active),
      (store_checks-Runs f.opened).1 (
        h.opens,
        (
          h.cfg,
          h.loads,
          (h.renders, (perms_check-NoFail s.perms dir eu_entries).1 h.readable, h.serves),
        ),
      ),
    ),
  )
