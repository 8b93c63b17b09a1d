-- ===== src/Heal.antt =====
-- internal/heal/heal.go: restarting the units that systemd reports as failed.
pub mod Trace
mod Examples
use rdda.Common.{
  List, [], ◌∷◌, ◌++◌, Option, none, some, Str, codes, ◌==◌, str_instance, if◌then◌else◌,
}
use rdda.Health.{Output, Runner, systemctl}

abbrev pub default_units : List Str
default_units =
    codes "rdda-singbox" ∷ codes "rdda-sub" ∷ codes "cloudflared" ∷ codes "rdda-nfqws" ∷ []

-- The loop's variables; the error names the unit whose restart failed.
pub record Pass (W : Type 0) : Type 0 where
  pub world : W
  pub healed : List Str
  pub failure : Option (Str × Str)

-- `if err == nil { err = … }`
abbrev pub first_error {ℓ} : {E : Type ℓ} → Option E → E → Option E
first_error none e = some e
first_error (some d) e = some d

module _ {W : Type 0} (run : Runner W) where
  abbrev record_restart : Str → Option Str → Pass W → Pass W
  record_restart u none p = record p { healed = p.healed ++ u ∷ [] }
  record_restart u (some e) p = record p { failure = first_error p.failure (u, e) }

  restart_unit : Str → Pass W → Pass W
  restart_unit u p =
      let (ignored, w1) = run (systemctl (codes "reset-failed") u) p.world in
      let (out, w2) = run (systemctl (codes "restart") u) w1 in
      record_restart u out.failure (record p { world = w2 })

  heal_unit : Str → Pass W → Pass W
  heal_unit u p =
      let (out, w) = run (systemctl (codes "is-failed") u) p.world in
      let p' : Pass W = record p { world = w } in
      if out.text == codes "failed" then restart_unit u p' else p'

  heal_units : List Str → Pass W → Pass W
  heal_units [] p = p
  heal_units (u ∷ us) p = heal_units us (heal_unit u p)

  pub heal : List Str → W → Pass W
  unfolding heal_units
  heal units w = heal_units units (record { world = w; healed = []; failure = none })
