-- ===== src/Doctor/RuNode/Healthy.antt =====
-- The RU node's report against the conditions that its checks are about.
use mathlib.Core.Bool.{true≢false}
use mathlib.Core.Path.{subst}
use rdda.Common.{
  ℕ, Bool, true, false, List, [], ◌∷◌, Option, none, some, Str, codes, ◌==◌, nat_eq, str_instance,
  ◌≡◌, ◌≢◌, ◌↔◌, refl, sym, ◌∙◌, ap, arith, Bool-cases, inl, inr, eq_iff, none-some, some_inj,
}
use rdda.Common.Results.{Result, ok, err, ok_inj, err≢ok}
use rdda.Doctor.Checks.{Check, is_fail, any_fail, is_config_json, read_pull_env}
use rdda.Doctor.Perms.Readable.{NoFail, AllReadable, perms_check-NoFail}
use rdda.Doctor.Probes.{Answer, reality_dest_from_config, legacy_shared}
use rdda.Doctor.RuNode
use rdda.Doctor.RuNode.{Seams, RuFiles, run_ru, endpoint_check}
use rdda.Json.{ℤ}

pub any_fail_nothing : any_fail [] ≡ false
unfolding any_fail
any_fail_nothing = refl

pub any_fail-cons :
    (c : Check) (cs : List Check) → (any_fail (c ∷ cs) ≡ false) ↔ (NoFail c × (any_fail cs ≡ false))
unfolding any_fail
any_fail-cons c cs = elim (Bool-cases (is_fail c.status)) [
  | inl b ↦ rw b (λ p. absurd (true≢false p), λ p. absurd (true≢false p.0))
  | inr b ↦ rw b (λ p. (refl, p), λ p. p.1)
]

-- The answer is the RU node's configuration, as far as the doctor looks.
abbrev pub Serves : Seams → Result Str Answer → Type 0
Serves s answer =
    (a : Answer) × (answer ≡ ok a) × (a.code ≡ 200) × (is_config_json s.valid_json a.body ≡ true)

Serves-ok :
    (s : Seams) (a : Answer)
    → Serves s (ok a)
    → (a.code ≡ 200) × (is_config_json s.valid_json a.body ≡ true)
Serves-ok s a (b, same, code, json) =
    subst (λ x. (x.code ≡ 200) × (is_config_json s.valid_json x.body ≡ true)) (sym (ok_inj same))
      (code, json)

pub endpoint_check-Serves :
    (s : Seams) (name url down misrouted : Str) (answer : Result Str Answer)
    → NoFail (endpoint_check s name url down misrouted answer) ↔ Serves s answer
unfolding endpoint_check
endpoint_check-Serves s name url down misrouted (err x) =
    (λ p. absurd (true≢false p), λ h. absurd (err≢ok h.1))
endpoint_check-Serves s name url down misrouted (ok a) = elim (Bool-cases (a.code == 200)) [
  | inr b ↦ rw b (
    λ p. absurd (true≢false p),
    λ h. absurd (true≢false (sym ((eq_iff a.code 200).1 (Serves-ok s a h).0) ∙ b)),
  )
  | inl b ↦ elim (Bool-cases (is_config_json s.valid_json a.body)) [
    | inr c ↦
        rw (b, c)
          (λ p. absurd (true≢false p), λ h. absurd (true≢false (sym (Serves-ok s a h).1 ∙ c)))
    | inl c ↦ rw (b, c) (λ p. (a, refl, (eq_iff a.code 200).0 b, c), λ h. refl)
  ]
]

module _ (s : Seams) where
  units_check-active : NoFail (RuNode.units_check s) ↔ (s.unit_active (codes "rdda-singbox") ≡ true)
  unfolding RuNode.units_check
  units_check-active = elim (Bool-cases (s.unit_active (codes "rdda-singbox"))) [
    | inl b ↦ rw b (λ p. refl, λ p. refl)
    | inr b ↦ rw b (λ p. absurd (true≢false p), λ p. absurd (true≢false (sym p)))
  ]

  -- The REALITY destination of singbox.json, where there is one, can be dialed.
  abbrev pub Dials : Result Str Str → Type 0
  Dials singbox =
      (sb host : Str) (port : ℤ)
      → singbox ≡ ok sb
      → reality_dest_from_config (s.parse sb) ≡ some (host, port)
      → s.dial_dest host port ≡ none

  weak-NoFail : (host : Str) (port : ℤ) (v : Bool × Str) → NoFail (RuNode.weak s host port v)
  unfolding RuNode.weak
  weak-NoFail host port (true, reason) = refl
  weak-NoFail host port (false, reason) = refl

  dialed-NoFail :
      (host : Str) (port : ℤ) (answer : Option Str)
      → NoFail (RuNode.dialed s host port answer) ↔ (answer ≡ none)
  unfolding RuNode.dialed
  dialed-NoFail host port (some x) = (λ p. absurd (true≢false p), λ p. absurd (none-some (sym p)))
  dialed-NoFail host port none = elim (Bool-cases (legacy_shared host)) [
    | inl b ↦ rw b (λ p. refl, λ p. refl)
    | inr b ↦ rw b (λ p. refl, λ p. weak-NoFail host port (s.valid_dest host port))
  ]

  dest_found-NoFail :
      (found : Option (Str × ℤ))
      → NoFail (RuNode.dest_found s found)
        ↔ ((host : Str) (port : ℤ) → found ≡ some (host, port) → s.dial_dest host port ≡ none)
  unfolding RuNode.dest_found
  dest_found-NoFail none = (λ p host port q. absurd (none-some q), λ h. refl)
  dest_found-NoFail (some (h, n)) = (
    λ p host port q.
        subst (λ w. s.dial_dest w.0 w.1 ≡ none) (some_inj q)
          ((dialed-NoFail h n (s.dial_dest h n)).0 p),
    λ r. (dialed-NoFail h n (s.dial_dest h n)).1 (r h n refl),
  )

  dest_check-Dials :
      (singbox : Result Str Str) → NoFail (RuNode.dest_check s singbox) ↔ Dials singbox
  unfolding RuNode.dest_check
  dest_check-Dials (err x) = (λ p sb host port q. absurd (err≢ok q), λ h. refl)
  dest_check-Dials (ok sb) = (
    λ p other host port q r.
        (dest_found-NoFail (reality_dest_from_config (s.parse sb))).0 p host port
          (ap (λ x. reality_dest_from_config (s.parse x)) (ok_inj q) ∙ r),
    λ h.
        (dest_found-NoFail (reality_dest_from_config (s.parse sb))).1
          (λ host port. h sb host port refl),
  )

  control_check-Serves :
      (env : Str × Str)
      → NoFail (RuNode.control_check s env) ↔ (env.0 ≢ [] → Serves s (s.http_probe env.0 env.1))
  unfolding RuNode.control_check
  control_check-Serves (from, token) = elim (Bool-cases (from == [])) [
    | inl b ↦ rw b (λ p set. absurd (set ((eq_iff from []).0 b)), λ h. refl)
    | inr b ↦ rw b (
      λ p set. (endpoint_check-Serves s _ from _ _ (s.http_probe from token)).0 p,
      λ h.
          (endpoint_check-Serves s _ from _ _ (s.http_probe from token)).1
            (h λ p. true≢false (sym ((eq_iff from []).1 p) ∙ b)),
    )
  ]

  last_pull-NoFail : (modified : Option ℕ) → NoFail (RuNode.last_pull_check s modified)
  unfolding RuNode.last_pull_check
  last_pull-NoFail none = refl
  last_pull-NoFail (some m) = ground arith

  egress_result-NoFail :
      (url : Str) (r : Result Str Bool) → NoFail (RuNode.egress_result s url r) ↔ (r ≢ ok false)
  unfolding RuNode.egress_result
  egress_result-NoFail url (err x) = (λ p q. cc, λ h. refl)
  egress_result-NoFail url (ok true) = (λ p q. cc, λ h. refl)
  egress_result-NoFail url (ok false) = (λ p. absurd (true≢false p), λ h. absurd (h refl))

  egress_check-NoFail :
      (url : Str) (singbox : Result Str Str)
      → NoFail (RuNode.egress_check s url singbox)
        ↔ ((sb : Str) → singbox ≡ ok sb → s.egress sb url ≢ ok false)
  unfolding RuNode.egress_check
  egress_check-NoFail url (err x) = (λ p sb q. absurd (err≢ok q), λ h. refl)
  egress_check-NoFail url (ok sb) = (
    λ p other q.
        subst (λ x. s.egress x url ≢ ok false) (ok_inj q)
          ((egress_result-NoFail url (s.egress sb url)).0 p),
    λ h. (egress_result-NoFail url (s.egress sb url)).1 (h sb refl),
  )

abbrev ru_entries : List Str
ru_entries = codes "singbox.json" ∷ codes "pull.env" ∷ []

-- What the RU node needs: the tunnel's unit runs; the borrowed destination, if singbox.json has one, can be
-- dialed; the control channel, if a pull is configured, serves the configuration; the service user, if there
-- is one, can read the files that are there; and the tunnel is not found blocked.
pub record RuHealthy (s : Seams) (dir url : Str) (f : RuFiles) : Type 0 where
  pub active : s.unit_active (codes "rdda-singbox") ≡ true
  pub dials : Dials s f.singbox
  pub serves :
      (read_pull_env f.pull_env).0 ≢ []
      → Serves s (s.http_probe (read_pull_env f.pull_env).0 (read_pull_env f.pull_env).1)
  pub readable :
      (uid gid : ℕ)
      → s.perms.svc_user ≡ some (uid, gid)
      → AllReadable s.perms uid gid dir ru_entries
  pub reaches : (sb : Str) → f.singbox ≡ ok sb → s.egress sb url ≢ ok false

-- The RU node's report has no failure exactly where the tunnel's unit runs, the borrowed destination of
-- singbox.json, if it has one, can be dialed, the control channel serves the configuration if a pull is
-- configured, the service user, if there is one, can read the files that are there, and the probe does not
-- find the tunnel blocked.
pub run_ru-RuHealthy :
    (s : Seams) (dir url : Str) (f : RuFiles)
    → (any_fail (run_ru s dir url f) ≡ false) ↔ RuHealthy s dir url f
unfolding run_ru
run_ru-RuHealthy s dir url f = (sound, complete)
  where
    sound : any_fail (run_ru s dir url f) ≡ false → RuHealthy s dir url f
    sound p =
        let (units, p1) = (any_fail-cons _ _).0 p in
        let (dest, p2) = (any_fail-cons _ _).0 p1 in
        let (control, p3) = (any_fail-cons _ _).0 p2 in
        let (pulled, p4) = (any_fail-cons _ _).0 p3 in
        let (perms, p5) = (any_fail-cons _ _).0 p4 in
        let (egress, p6) = (any_fail-cons _ _).0 p5 in
        record {
          active = (units_check-active s).0 units;
          dials = (dest_check-Dials s f.singbox).0 dest;
          serves = (control_check-Serves s (read_pull_env f.pull_env)).0 control;
          readable = (perms_check-NoFail s.perms dir ru_entries).0 perms;
          reaches = (egress_check-NoFail s url f.singbox).0 egress;
        }

    complete : RuHealthy s dir url f → any_fail (run_ru s dir url f) ≡ false
    complete h = (any_fail-cons _ _).1 (
      (units_check-active s).1 h.active,
      (any_fail-cons _ _).1 (
        (dest_check-Dials s f.singbox).1 h.dials,
        (any_fail-cons _ _).1 (
          (control_check-Serves s (read_pull_env f.pull_env)).1 h.serves,
          (any_fail-cons _ _).1 (
            last_pull-NoFail s f.modified,
            (any_fail-cons _ _).1 (
              (perms_check-NoFail s.perms dir ru_entries).1 h.readable,
              (any_fail-cons _ _).1
                  ((egress_check-NoFail s url f.singbox).1 h.reaches, any_fail_nothing),
            ),
          ),
        ),
      ),
    )
