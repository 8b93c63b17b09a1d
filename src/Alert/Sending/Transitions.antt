-- ===== src/Alert/Sending/Transitions.antt =====
-- What one run does to the persisted set, key by key.
use rdda.Common.{
  Bool, Option, none, some, Str, ◌≡◌, ◌∙◌, str_instance, if◌then◌else◌, is_some, str_lt, arith,
}
use rdda.Common.Assoc.{lookup, keys, mem, Unique, mem-keys, keys-Unique, Distinct}
use rdda.Common.Sorting.{mem-sort, sort-Unique}
use rdda.Alert.Sending.{Mailer, Messages, at, fire, resolve, sorted_keys, fresh_round, exchange}
use rdda.Alert.Sending.Firing.{fire_self, fire-other, fire-resolved}
use rdda.Alert.Sending.Resolving.{resolve_self, resolve-other, resolve-fired}

pub mem-sorted_keys : (k : Str) (m : Messages) → mem k (sorted_keys m) ≡ is_some (lookup k m)
unfolding sorted_keys
mem-sorted_keys k m = mem-sort str_lt k (keys m) ∙ mem-keys k m

pub sorted_keys-Unique : (m : Messages) → Distinct m → Unique (sorted_keys m)
unfolding sorted_keys
sorted_keys-Unique m d = sort-Unique str_lt (keys m) (keys-Unique m d)

-- What the next set holds for a key: its current message and its message in the last set, if any, and
-- whether it was mailed as fired or as resolved in this run.
unfoldable pub next_message : Option Str → Option Str → Bool → Bool → Option Str
next_message (some now) (some was) fired resolved = some now
next_message (some now) none fired resolved = if fired then some now else none
next_message none (some was) fired resolved = if resolved then none else some was
next_message none none fired resolved = none

-- After both loops the new set holds, for every key, exactly what its transition and the mail's fate say.
pub exchange-lookup :
    (mailer : Mailer) (current last : Messages) (k : Str)
    → Distinct current
    → Distinct last
    → let r = exchange mailer current last in
      lookup k r.new_set
      ≡ next_message (lookup k current) (lookup k last) (mem k r.fired) (mem k r.resolved)
unfolding exchange next_message at lookup mem
exchange-lookup mailer current last k dc dl =
    let f = fire mailer current last (sorted_keys current) fresh_round in
    let r = resolve mailer current last (sorted_keys last) f in
    let was_mailed = fire-resolved mailer current last (sorted_keys current) fresh_round in
    let listed = mem-sorted_keys k current in
    let listed_last = mem-sorted_keys k last in
    ground (
      arith,
      listed,
      listed_last,
      was_mailed,
      resolve-fired mailer current last (sorted_keys last) f,
      fire_self mailer current last (sorted_keys current) k fresh_round
          (sorted_keys-Unique current dc),
      fire-other mailer current last (sorted_keys current) k fresh_round,
      resolve_self mailer current last (sorted_keys last) k f (sorted_keys-Unique last dl),
      resolve-other mailer current last (sorted_keys last) k f,
    )
