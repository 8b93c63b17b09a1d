-- ===== src/Ratelimit.antt =====
-- internal/ratelimit/ratelimit.go: a token bucket for each key. Times are nanoseconds since the zero
-- time. The program's only limiter is New(30, 1): `perSec` is a whole number of tokens, so a bucket
-- holds billionths of a token exactly, and `elapsed * perSec` has no rounding.
pub mod Bounds
pub mod Budget
pub mod Service
mod Examples
use rdda.Common.{
  ℕ, ◌+◌, ◌-◌, ◌*◌, Bool, true, false, List, [], ◌∷◌, Option, none, some, ◌&&◌, ◌==◌, Str,
  str_instance, ltb, leb, if◌then◌else◌,
}
use rdda.Common.Assoc.{lookup, insert}

-- The number of parts that a token is counted in: the nanoseconds of a second.
abbrev pub unit : ℕ
unit = 1000000000

abbrev pub minute : ℕ
minute = 60 * unit

pub record Bucket : Type 0 where
  pub tokens : ℕ
  pub last : ℕ

pub record Limiter : Type 0 where
  pub buckets : List (Str × Bucket)
  pub burst : ℕ
  pub per_sec : ℕ
  pub sweep_every : ℕ
  pub last_sweep : ℕ

-- `perSec` of zero stands for every rate that is not positive.
unfoldable pub new : ℕ → ℕ → Limiter
new burst per_sec = record {
  buckets = [];
  burst = (if ltb burst 1 then 1 else burst) * unit;
  per_sec = per_sec;
  sweep_every = minute;
  last_sweep = 0;
}

-- `if b.tokens += …; b.tokens > l.burst { b.tokens = l.burst }`
unfoldable pub refill : ℕ → ℕ → ℕ → Bucket → Bucket
refill burst per_sec now b =
    if ltb b.last now && ltb 0 per_sec
    then (let grown = b.tokens + (now - b.last) * per_sec in
        record { tokens = if ltb burst grown then burst else grown; last = now })
    else b

-- The bucket of the key, made full where there is none.
unfoldable pub bucket_at : ℕ → ℕ → ℕ → Option Bucket → Bucket
bucket_at burst per_sec now none = record { tokens = burst; last = now }
bucket_at burst per_sec now (some b) = refill burst per_sec now b

unfoldable pub current : Limiter → Str → ℕ → Bucket
current l key now = bucket_at l.burst l.per_sec now (lookup key l.buckets)

-- A bucket that has sat idle long enough to be full again. A clock that ran backwards gives a
-- negative difference, which is below every burst, and so does the truncated one.
unfoldable pub is_idle : ℕ → ℕ → ℕ → Bucket → Bool
is_idle burst per_sec now b = leb burst ((now - b.last) * per_sec)

unfoldable pub drop_idle : ℕ → ℕ → ℕ → List (Str × Bucket) → List (Str × Bucket)
drop_idle burst per_sec now [] = []
drop_idle burst per_sec now ((k, b) ∷ m) =
    let rest = drop_idle burst per_sec now m in
    if is_idle burst per_sec now b then rest else (k, b) ∷ rest

unfoldable pub sweep : Limiter → ℕ → Limiter
sweep l now =
    if ltb (now - l.last_sweep) l.sweep_every
    then l
    else if leb l.per_sec 0
    then record l { last_sweep = now }
    else record l { last_sweep = now; buckets = drop_idle l.burst l.per_sec now l.buckets }

-- The write through the bucket's pointer: it reaches the map only while the sweep has kept the entry.
unfoldable pub charge : Str → Bucket → List (Str × Bucket) → List (Str × Bucket)
charge key b [] = []
charge key b ((k, c) ∷ m) = if k == key then (key, b) ∷ m else (k, c) ∷ charge key b m

-- Allow, under the mutex: look up or create, refill, sweep, then take a token.
unfoldable pub allow : Limiter → Str → ℕ → Bool × Limiter
allow l key now =
    let b = current l key now in
    let swept = sweep (record l { buckets = insert key b l.buckets }) now in
    if ltb b.tokens unit then (false, swept) else (
      true,
      record swept { buckets = charge key (record b { tokens = b.tokens - unit }) swept.buckets },
    )
