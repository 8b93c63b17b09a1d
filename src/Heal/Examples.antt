-- ===== src/Heal/Examples.antt =====
-- A small systemd, and the healing pass run on it: the restart of one unit fails.
use rdda.Common.{
  List, [], ◌∷◌, none, some, ◌≡◌, refl, Str, codes, str_eq, ◌==◌, str_instance, if◌then◌else◌,
}
use rdda.Health.{Output, Runner}
use rdda.Heal.{default_units, heal, heal_unit, restart_unit}
use rdda.Heal.Trace.{logging, Healing, first, heal-Healing}

data UnitState : Type 0 where
  active inactive failed : UnitState

abbrev Units : Type 0
Units = Str → UnitState

abbrev answer : Str → Units → Output × Units
answer text w = (record { text = text; failure = none }, w)

abbrev update : Str → UnitState → Units → Units
update u s w v = if u == v then s else w v

abbrev shown : UnitState → Str
shown active = codes "active"
shown inactive = codes "inactive"
shown failed = codes "failed"

-- The unit `bad` cannot be started.
abbrev dispatch : Str → Str → Units → Output × Units
dispatch verb u w =
    if verb == codes "is-failed"
    then answer (shown (w u)) w
    else if verb == codes "reset-failed"
    then answer [] (update u inactive w)
    else if u == codes "bad"
    then (record { text = []; failure = some (codes "exit status 1") }, update u failed w)
    else answer [] (update u active w)

abbrev small_systemd : Runner Units
small_systemd (cmd ∷ verb ∷ u ∷ []) w = dispatch verb u w
small_systemd _ w = answer [] w

abbrev broken : Units
broken u =
    if u == codes "rdda-sub" then failed else if u == codes "cloudflared" then inactive else active

heal-Healing_example :
    let q = heal (logging small_systemd) default_units (broken, []) in
    (failures : List (Str × Str)) × Healing default_units q.world.1 q.healed failures
    × (q.failure ≡ first failures)
heal-Healing_example = heal-Healing small_systemd default_units broken

healed_unit : (heal small_systemd default_units broken).healed ≡ codes "rdda-sub" ∷ []
unfolding heal heal_unit restart_unit str_eq
healed_unit = refl
