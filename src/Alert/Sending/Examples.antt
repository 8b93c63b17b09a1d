-- ===== src/Alert/Sending/Examples.antt =====
-- A mailer that is down for the first mail, and the runs around it.
use rdda.Common.{true, List, [], ◌∷◌, none, some, codes, str_eq, str_lt, ◌≡◌, refl, str_instance}
use rdda.Common.Assoc.{lookup, insert, mem}
use rdda.Common.Sorting.{sort}
use rdda.Alert.{Condition, AlertConfig}
use rdda.Alert.Sending.{
  Mailer, fire, fire_key, resolve, resolve_key, sorted_keys, exchange, by_key, load_firing,
  save_firing, save_failure, run, at,
}
use rdda.Alert.Sending.Delivery.{Delivered, fired_mail, past_mail}
use rdda.Alert.Sending.Transitions.{next_message}
use rdda.Alert.Sending.Settled.{current_set, run-saved, run-exact, run-once}

abbrev settings : AlertConfig
settings = record {
  enabled = true;
  email = codes "op@example.org";
  command = codes "msmtp";
  cert_warn_days = 14;
}

abbrev refuse_first : Mailer
refuse_first [] m = some (codes "msmtp: exit status 75")
refuse_first (x ∷ xs) m = none

abbrev deliver : Mailer
deliver sent m = none

abbrev two_down : List Condition
two_down =
    record { key = codes "ru-down"; message = codes "RU node down" }
    ∷ record { key = codes "cert-expiry"; message = codes "TLS cert expires" }
    ∷ []

run-saved_example :
    let out = run settings refuse_first none two_down none in
    (lookup (codes "ru-down") (load_firing out.file)
      ≡ next_message
          (lookup (codes "ru-down") (current_set two_down))
          (lookup (codes "ru-down") (load_firing none))
          (mem (codes "ru-down") out.fired)
          (mem (codes "ru-down") out.resolved))
    × (mem (codes "ru-down") out.fired ≡ true
        → Delivered refuse_first out.mails
            (fired_mail refuse_first (current_set two_down) (load_firing none) (codes "ru-down")))
    × (mem (codes "ru-down") out.resolved ≡ true
        → Delivered refuse_first out.mails
            (past_mail refuse_first (current_set two_down) (load_firing none) (codes "ru-down")))
unfolding load_firing
run-saved_example =
    run-saved settings refuse_first two_down none (refl, λ e. cc) (codes "ru-down") tt

run-exact_example :
    lookup (codes "ru-down") (load_firing (run settings deliver none two_down none).file)
    ≡ lookup (codes "ru-down") (current_set two_down)
unfolding run exchange fire fire_key resolve resolve_key sorted_keys sort str_lt str_eq by_key
    load_firing save_firing save_failure insert lookup at
run-exact_example =
    run-exact settings deliver two_down none (refl, λ e. cc) none (codes "ru-down") tt refl

run-once_example :
    (run settings refuse_first none two_down (run settings deliver none two_down none).file).mails
    ≡ []
unfolding run exchange fire fire_key resolve resolve_key sorted_keys sort str_lt str_eq by_key
    load_firing save_firing save_failure insert lookup at
run-once_example =
    run-once settings deliver refuse_first two_down none none none (refl, λ e. cc) tt refl

-- The refused mail's key is not persisted, so that it fires again.
refused_again : (run settings refuse_first none two_down none).fired ≡ codes "ru-down" ∷ []
unfolding run exchange fire fire_key resolve resolve_key sorted_keys sort str_lt str_eq by_key
    load_firing save_firing save_failure insert lookup at
refused_again = refl
