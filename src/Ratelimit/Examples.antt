-- ===== src/Ratelimit/Examples.antt =====
-- The program's limiter, New(30, 1), on short runs.
use rdda.Common.{◌+◌, ◌*◌, ◌≤◌, true, List, [], ◌∷◌, ◌≡◌, refl, Str, codes, str_eq, arith}
use rdda.Common.Assoc.{lookup, insert}
use rdda.Ratelimit.{
  unit, Limiter, new, refill, bucket_at, current, is_idle, drop_idle, sweep, charge, allow,
}
use rdda.Ratelimit.Bounds.{IsValid, new-IsValid, allow-IsValid}
use rdda.Ratelimit.Budget.{sweep_lossless}
use rdda.Ratelimit.Service.{Request, served, served_bound, allow_patient}

abbrev control : Limiter
control = new 30 1

abbrev peer : Str
peer = codes "203.0.113.9"

control-IsValid : IsValid (allow control peer 5).1
control-IsValid = allow-IsValid control peer 5 (new-IsValid 30 1)

sweep_lossless_example :
    current (sweep (allow control peer 5).1 (90 * unit)) peer (95 * unit)
    ≡ current (allow control peer 5).1 peer (95 * unit)
sweep_lossless_example =
    sweep_lossless (allow control peer 5).1 peer (90 * unit) (95 * unit) control-IsValid
      (omega arith)

abbrev burst_of_two : Limiter
burst_of_two = new 2 1

abbrev hammering : List Request
hammering =
    record { key = peer; at = unit }
    ∷ record { key = peer; at = unit }
    ∷ record { key = peer; at = unit }
    ∷ record { key = peer; at = 2 * unit }
    ∷ []

served_three : served peer burst_of_two hammering ≡ 3
unfolding served allow current bucket_at refill sweep charge drop_idle is_idle new lookup insert
    str_eq
served_three = refl

served_bound_example : served peer burst_of_two hammering * unit ≤ burst_of_two.burst + unit * 1
unfolding new
served_bound_example =
    served_bound peer burst_of_two unit (2 * unit) hammering (new-IsValid 2 1) (omega arith)

allow_patient_example : (allow control peer 7).0 ≡ true
unfolding new lookup
allow_patient_example = allow_patient control peer 7 (new-IsValid 30 1) (omega arith) (λ b e. cc)
