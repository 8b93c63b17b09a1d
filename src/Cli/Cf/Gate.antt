-- ===== src/Cli/Cf/Gate.antt =====
-- What `rdda cf setup` changes in a dry run, and when it turns the service on.
use rdda.Common.{
  Option, none, some, false, true, false, not, List, [], ◌∷◌, ◌++◌, Str, codes, ◌==◌, str_instance,
  ◌&&◌, ◌||◌, ◌≡◌, refl, ◌∙◌, ap, Bool-cases, inl, inr,
}
use rdda.Common.Results.{Result, ok, err, Result-cases, err≢ok}
use rdda.Cli.Cf
use rdda.Cfsetup.{classify_route_dns}
use rdda.Cli.Cf.{
  Env, Options, CfError, prepare, route_dns, route_all, enable_service, with_hosts, run_cf_setup,
}
use rdda.State.Config.{Config}

module _ {W : Type 0} (e : Env W) where
  abbrev Unchanged : {A : Type 0} → (Result CfError A × W) → W → Type 0
  Unchanged r w = r.1 ≡ w

  continue-Unchanged :
      {A B : Type 0} (r : Result CfError A × W) (next : A → Cf.Step W B) (w : W)
      → Unchanged r w
      → ((a : A) (v : W) → v ≡ w → Unchanged (next a v) w)
      → Unchanged (Cf.continue r next) w
  unfolding Cf.continue
  continue-Unchanged (err x, v) next w h k = h
  continue-Unchanged (ok a, v) next w h k = k a v h

  login_dry : (w : W) → e.dry_run ≡ true → Unchanged (Cf.login e w) w
  unfolding Cf.login
  login_dry w dry = elim (Bool-cases (e.exists (e.home ++ codes "/.cloudflared/cert.pem") w)) [
    | inl b ↦ rw b refl
    | inr b ↦ rw (b, dry) refl
  ]

  stage_dry :
      (cfg : Config) (id src dst : Str) (o : Options) (w : W)
      → e.dry_run ≡ true
      → Unchanged (Cf.stage_cloudflared e cfg id src dst o w) w
  unfolding Cf.stage_cloudflared Cf.staged
  stage_dry cfg id src dst o w dry =
      elim (Result-cases (Cf.Cfconfig.render e.print (Cf.with_tunnel e cfg id dst o) 8080)) [
        | inl (yml, p) ↦ rw (p, dry) refl
        | inr (x, p) ↦ rw p refl
      ]

  save_dry : (cfg : Config) (w : W) → e.dry_run ≡ true → Unchanged (Cf.save e cfg w) w
  unfolding Cf.save
  save_dry cfg w dry = rw dry refl

  tunnel_dry : (name : Str) (w : W) → e.dry_run ≡ true → Unchanged (Cf.ensure_tunnel e name w) w
  unfolding Cf.ensure_tunnel
  tunnel_dry name w dry = rw dry refl

  prepare_dry :
      (cfg : Config) (o : Options) (w : W) → e.dry_run ≡ true → Unchanged (prepare e cfg o w) w
  unfolding prepare
  prepare_dry cfg o w dry = continue-Unchanged (Cf.login e w) _ w (login_dry w dry) λ logged w1 p1.
      continue-Unchanged (Cf.ensure_tunnel e o.tunnel_name w1) _ w
        (tunnel_dry o.tunnel_name w1 dry ∙ p1)
        λ tunnel w2 p2.
          continue-Unchanged (Cf.stage_cloudflared e cfg tunnel.0 tunnel.1 _ o w2) _ w
            (stage_dry cfg tunnel.0 tunnel.1 _ o w2 dry ∙ p2) λ done w3 p3. save_dry _ w3 dry ∙ p3

  route_all_dry :
      (name : Str) (hs : List Str) (w : W) → e.dry_run ≡ true → route_all e name hs w ≡ ([], w)
  unfolding route_all route_dns
  route_all_dry name [] w dry = refl
  route_all_dry name (h ∷ hs) w dry = rw (dry, route_all_dry name hs w dry) refl

  finish_dry :
      (name : Str) (hs : List Str) (w : W)
      → e.dry_run ≡ true
      → Unchanged (Cf.finish e (route_all e name hs w)) w
  unfolding Cf.finish enable_service
  finish_dry name hs w dry = rw (route_all_dry name hs w dry, dry) refl

  configured_dry :
      (cfg : Config) (o : Options) (w : W)
      → e.dry_run ≡ true
      → Unchanged (Cf.configured e cfg o w) w
  unfolding Cf.configured
  configured_dry cfg o w dry = elim (Bool-cases (o.tunnel_host == [] || o.sub_host == [])) [
    | inl b ↦ rw b refl
    | inr b ↦ elim (Bool-cases (not e.dry_run && not (e.has_cloudflared w))) [
      | inl c ↦ rw (b, c) refl
      | inr c ↦
          rw (b, c)
            (continue-Unchanged (prepare e cfg o w) _ w (prepare_dry cfg o w dry)
              λ ready w1 p1. finish_dry o.tunnel_name (o.tunnel_host ∷ o.sub_host ∷ []) w1 dry ∙ p1)
    ]
  ]

  loaded_dry :
      (cfg : Result Str Config) (o : Options) (w : W)
      → e.dry_run ≡ true
      → Unchanged (Cf.loaded e cfg o w) w
  unfolding Cf.loaded
  loaded_dry (err x) o w dry = refl
  loaded_dry (ok cfg) o w dry = configured_dry cfg (with_hosts e cfg o) w dry

  opened_dry :
      (opening : Option Str × W) (o : Options)
      → e.dry_run ≡ true
      → (Cf.opened e opening o).1 ≡ opening.1
  unfolding Cf.opened
  opened_dry (some x, w) o dry = refl
  opened_dry (none, w) o dry = loaded_dry (e.load_config w) o w dry

  -- A dry run of `rdda cf setup` changes nothing after the opening of the state directory, which makes that
  -- directory: it leaves what the opening leaves, however it ends.
  pub run_cf_setup_dry :
      (o : Options) (w : W) → e.dry_run ≡ true → (run_cf_setup e o w).1 ≡ (e.open_state w).1
  unfolding run_cf_setup
  run_cf_setup_dry o w dry = opened_dry (e.open_state w) o dry

  -- The command that routes a hostname, and what it answers.
  abbrev pub route_command : Str → Str → W → (Str × Option Str) × W
  route_command name host w =
      e.run (codes "cloudflared" ∷ codes "tunnel" ∷ codes "route" ∷ codes "dns" ∷ name ∷ host ∷ [])
        w

  abbrev pub NoConflict : (Str × Option Str) → Type 0
  NoConflict answer = (classify_route_dns answer.0 answer.1).conflict ≡ false

  -- Both commands of the service succeed, from w on to w'.
  abbrev pub Enabled : W → W → Type 0
  Enabled w w' =
      (o1 o2 : Str) × (w1 : W) × (e.run (codes "systemctl" ∷ codes "daemon-reload" ∷ []) w
        ≡ ((o1, none), w1))
      × (e.run (codes "systemctl" ∷ codes "enable" ∷ codes "--now" ∷ codes "cloudflared" ∷ []) w1
          ≡ ((o2, none), w'))

  -- The route commands of the two hostnames and the service, from a world on.
  abbrev pub Routed : Str → Str → Str → W → W → Type 0
  Routed name host sub w w' =
      NoConflict (route_command name host w).0
      × NoConflict (route_command name sub (route_command name host w).1).0
      × Enabled (route_command name sub (route_command name host w).1).1 w'

  continue_ok :
      {A B : Type 0} (r : Result CfError A × W) (next : A → Cf.Step W B) (b : B) (w : W)
      → Cf.continue r next ≡ (ok b, w)
      → (a : A) × (v : W) × (r ≡ (ok a, v)) × (next a v ≡ (ok b, w))
  unfolding Cf.continue
  continue_ok (err x, v) next b w h = absurd (err≢ok (ap (λ r. r.0) h))
  continue_ok (ok a, v) next b w h = (a, v, refl, h)

  checked_ok :
      (f : Str → CfError) (r : Option Str × W) (w' : W)
      → Cf.checked f r ≡ (ok tt, w')
      → r ≡ (none, w')
  unfolding Cf.checked
  checked_ok f (none, w) w' h = ap (λ p. (none, p.1)) h
  checked_ok f (some x, w) w' h = absurd (err≢ok (ap (λ p. p.0) h))

  enable_service-Enabled :
      (w w' : W) → e.dry_run ≡ false → enable_service e w ≡ (ok tt, w') → Enabled w w'
  unfolding enable_service
  enable_service-Enabled w w' live h =
      let reload = e.run (codes "systemctl" ∷ codes "daemon-reload" ∷ []) w in
      let (u, w1, reloaded, rest) =
        continue_ok (Cf.checked CfError.reload_failed (reload.0.1, reload.1)) _ tt w'
          (rw live at h) in
      let first = checked_ok CfError.reload_failed (reload.0.1, reload.1) w1 reloaded in
      let enable =
        e.run (codes "systemctl" ∷ codes "enable" ∷ codes "--now" ∷ codes "cloudflared" ∷ []) w1 in
      let second = checked_ok CfError.enable_failed (enable.0.1, enable.1) w' rest in
      (
        reload.0.0,
        enable.0.0,
        w1,
        ap (λ p. ((reload.0.0, p.0), p.1)) first,
        ap (λ p. ((enable.0.0, p.0), p.1)) second,
      )

  route_dns_live :
      (name host : Str) (w : W)
      → e.dry_run ≡ false
      → route_dns e name host w ≡ (
        classify_route_dns (route_command name host w).0.0 (route_command name host w).0.1,
        (route_command name host w).1,
      )
  unfolding route_dns
  route_dns_live name host w live = rw live refl

  finish_ok :
      (name host sub : Str) (w w' : W)
      → e.dry_run ≡ false
      → Cf.finish e (route_all e name (host ∷ sub ∷ []) w) ≡ (ok tt, w')
      → Routed name host sub w w'
  unfolding route_all Cf.finish
  finish_ok name host sub w w' live h =
      let first = route_command name host w in
      let second = route_command name sub first.1 in
      elim (Bool-cases (classify_route_dns first.0.0 first.0.1).conflict) [
        | inl a ↦ absurd (err≢ok (ap (λ r. r.0) (rw (route_dns_live name host w live, a) at h)))
        | inr a ↦ elim (Bool-cases (classify_route_dns second.0.0 second.0.1).conflict) [
          | inl b ↦ absurd (
              err≢ok (
                ap (λ r. r.0)
                  (rw (route_dns_live name host w live, a, route_dns_live name sub first.1 live, b)
                    at h)))
          | inr b ↦ (
            a,
            b,
            enable_service-Enabled second.1 w' live (
                rw (route_dns_live name host w live, a, route_dns_live name sub first.1 live, b) at
                  h),
          )
        ]
      ]

  -- What a setup that ends without an error has done, from the world w that the opening of the state
  -- directory leaves.
  abbrev pub SetUp : Options → W → W → Type 0
  SetUp o w w' =
      (cfg : Config) × (w1 : W) × (e.load_config w ≡ ok cfg)
      × (prepare e cfg (with_hosts e cfg o) w ≡ (ok tt, w1))
      × Routed o.tunnel_name (with_hosts e cfg o).tunnel_host (with_hosts e cfg o).sub_host w1 w'

  configured_ok :
      (cfg : Config) (o : Options) (w w' : W)
      → e.dry_run ≡ false
      → Cf.configured e cfg o w ≡ (ok tt, w')
      → (w1 : W) × (prepare e cfg o w ≡ (ok tt, w1))
        × Routed o.tunnel_name o.tunnel_host o.sub_host w1 w'
  unfolding Cf.configured
  configured_ok cfg o w w' live h = elim (Bool-cases (o.tunnel_host == [] || o.sub_host == [])) [
    | inl b ↦ absurd (err≢ok (ap (λ r. r.0) (rw b at h)))
    | inr b ↦ elim (Bool-cases (not e.dry_run && not (e.has_cloudflared w))) [
      | inl c ↦ absurd (err≢ok (ap (λ r. r.0) (rw (b, c) at h)))
      | inr c ↦
          let (ready, w1, prepared, finished) =
            continue_ok (prepare e cfg o w) _ tt w' (rw (b, c) at h) in
          (w1, prepared, finish_ok o.tunnel_name o.tunnel_host o.sub_host w1 w' live finished)
    ]
  ]

  loaded_ok :
      (cfg : Result Str Config) (o : Options) (w w' : W)
      → e.load_config w ≡ cfg
      → e.dry_run ≡ false
      → Cf.loaded e cfg o w ≡ (ok tt, w')
      → SetUp o w w'
  unfolding Cf.loaded
  loaded_ok (err x) o w w' loads live h = absurd (err≢ok (ap (λ r. r.0) h))
  loaded_ok (ok cfg) o w w' loads live h =
      let (w1, prepared, routed) = configured_ok cfg (with_hosts e cfg o) w w' live h in
      (cfg, w1, loads, prepared, routed)

  opened_ok :
      (opening : Option Str × W) (o : Options) (w' : W)
      → e.dry_run ≡ false
      → Cf.opened e opening o ≡ (ok tt, w')
      → (opening.0 ≡ none) × SetUp o opening.1 w'
  unfolding Cf.opened
  opened_ok (some x, w) o w' live h = absurd (err≢ok (ap (λ r. r.0) h))
  opened_ok (none, w) o w' live h = (refl, loaded_ok (e.load_config w) o w w' refl live h)

  -- A setup that is no dry run and ends without an error has opened the state directory and loaded a
  -- configuration, and from there on: the steps before the routing have succeeded, then neither hostname's
  -- route command gave an answer that is classed as a conflict with an existing record, and right after
  -- both commands that enable the service have succeeded. A route command that failed for another reason,
  -- or that confirmed nothing, is not classed as a conflict.
  pub run_cf_setup-SetUp :
      (o : Options) (w w' : W)
      → e.dry_run ≡ false
      → run_cf_setup e o w ≡ (ok tt, w')
      → ((e.open_state w).0 ≡ none) × SetUp o (e.open_state w).1 w'
  unfolding run_cf_setup
  run_cf_setup-SetUp o w w' live h = opened_ok (e.open_state w) o w' live h
