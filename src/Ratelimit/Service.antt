-- ===== src/Ratelimit/Service.antt =====
-- Runs of requests: what a key is served is bounded by its burst and rate, and a patient key is served.
use mathlib.Core.Path.{subst}
use rdda.Common.{
  ℕ, ◌+◌, ◌-◌, ◌*◌, ◌≤◌, ◌<◌, true, false, List, [], ◌∷◌, Option, none, some, ◌≡◌, refl, ◌∙◌, ◌==◌,
  ◌&&◌, Str, str_instance, eq_iff, leb, ltb, le→leb, arith, if◌then◌else◌, Bool-cases, inl, inr, ap,
}
use rdda.Common.Assoc.{lookup}
use rdda.Ratelimit.{unit, Bucket, Limiter, refill, bucket_at, current, sweep, charge, allow}
use rdda.Ratelimit.Bounds.{
  IsValid, current-le_burst, allow-IsValid, lookup-charge, touched, touched-IsValid, sweep-burst,
}
use rdda.Ratelimit.Budget.{
  level, level-later, IsSettled, current-IsSettled, current-touched, swept_kept, refill_settled,
  sweep_lossless, mul_mono, mul_split,
}

abbrev swept : Limiter → Str → ℕ → Limiter
swept l k now = sweep (touched l k now) now

current-swept :
    (l : Limiter) (j k : Str) (now : ℕ)
    → IsValid l
    → current (swept l j now) k now ≡ current l k now
current-swept l j k now v =
    sweep_lossless (touched l j now) k now now (touched-IsValid l j now v) (omega arith)
    ∙ current-touched l j k now

charged : Limiter → Str → Bucket → Limiter
charged s j b = record s { buckets = charge j (record b { tokens = b.tokens - unit }) s.buckets }

charged-other :
    (s : Limiter) (j k : Str) (b : Bucket) (now : ℕ)
    → (j == k) ≡ false
    → current (charged s j b) k now ≡ current s k now
unfolding current charged
charged-other s j k b now h = rw lookup-charge (rw h)

charged_self :
    (s : Limiter) (k : Str) (b : Bucket) (now : ℕ)
    → lookup k s.buckets ≡ some b
    → IsSettled s.per_sec now b
    → level (charged s k b) k now ≡ b.tokens - unit
unfolding level current charged bucket_at
charged_self s k b now e h =
    let paid : Bucket = record b { tokens = b.tokens - unit } in
    let found : lookup k (charge k paid s.buckets) ≡ some paid =
      rw (lookup-charge, (eq_iff k k).1 refl, e) refl in
    ap (λ o. (bucket_at s.burst s.per_sec now o).tokens) found
    ∙ ap (λ (c : Bucket). c.tokens) (refill_settled s.burst s.per_sec now paid h)

sweep-per_sec : (l : Limiter) (now : ℕ) → (sweep l now).per_sec ≡ l.per_sec
unfolding sweep
sweep-per_sec l now = ground arith

spent :
    (l : Limiter) (k : Str) (now : ℕ)
    → IsValid l
    → level (charged (swept l k now) k (current l k now)) k now ≡ level l k now - unit
spent l k now v =
    charged_self (swept l k now) k (current l k now) now (swept_kept l k now v)
      (rw sweep-per_sec (current-IsSettled l k now))
    ∙ (unfold level in refl)

-- A request that is served takes one token from its own key, and one that is refused takes nothing.
allow-level :
    (l : Limiter) (j k : Str) (now : ℕ)
    → IsValid l
    → level (allow l j now).1 k now
      ≡ (if (allow l j now).0 && j == k then level l k now - unit else level l k now)
unfolding allow charged
allow-level l j k now v = elim (Bool-cases (ltb (current l j now).tokens unit)) [
  | inl empty ↦ rw empty (unfold level in ap (λ (c : Bucket). c.tokens) (current-swept l j k now v))
  | inr enough ↦ elim (Bool-cases (j == k)) [
    | inl same ↦
        rw (enough, same)
          (subst
            (λ i. level (charged (swept l j now) j (current l j now)) i now ≡ level l i now - unit)
            ((eq_iff j k).0 same) (spent l j now v))
    | inr other ↦
        rw (enough, other)
          (unfold level in
            ap (λ (c : Bucket). c.tokens)
              (charged-other (swept l j now) j k (current l j now) now other
                ∙ current-swept l j k now v))
  ]
]

allow-served : (l : Limiter) (k : Str) (now : ℕ) → (allow l k now).0 ≡ leb unit (level l k now)
unfolding allow level
allow-served l k now = ground arith

allow-per_sec : (l : Limiter) (k : Str) (now : ℕ) → (allow l k now).1.per_sec ≡ l.per_sec
unfolding allow
allow-per_sec l k now = ground (arith, sweep-per_sec (touched l k now) now)

allow-burst : (l : Limiter) (k : Str) (now : ℕ) → (allow l k now).1.burst ≡ l.burst
unfolding allow
allow-burst l k now = ground (arith, sweep-burst (touched l k now) now)

pub record Request : Type 0 where
  pub key : Str
  pub at : ℕ

-- How many of the requests of a key are served, among those of all keys.
unfoldable pub served : Str → Limiter → List Request → ℕ
served k l [] = 0
served k l (r ∷ rs) =
    let (ok, l') = allow l r.key r.at in (if ok && r.key == k then 1 else 0) + served k l' rs

-- The requests come in the order of their times, between two times.
abbrev pub InOrder : ℕ → ℕ → List Request → Type 0
InOrder from to [] = from ≤ to
InOrder from to (r ∷ rs) = (from ≤ r.at) × InOrder r.at to rs

InOrder-le : (from to : ℕ) (rs : List Request) → InOrder from to rs → from ≤ to
InOrder-le from to [] h = h
InOrder-le from to (r ∷ rs) (h, hs) = omega (arith, InOrder-le r.at to rs hs)

served-level :
    (k : Str) (l : Limiter) (from to : ℕ) (rs : List Request)
    → IsValid l
    → InOrder from to rs
    → served k l rs * unit ≤ level l k from + (to - from) * l.per_sec
unfolding served
served-level k l from to [] v h = omega arith
served-level k l from to (r ∷ rs) v (h, hs) =
    let ih = served-level k (allow l r.key r.at).1 r.at to rs (allow-IsValid l r.key r.at v) hs in
    let le = InOrder-le r.at to rs hs in
    ground (
      arith,
      ih,
      allow-level l r.key k r.at v,
      allow-served l r.key r.at,
      allow-per_sec l r.key r.at,
      level-later l k from r.at h,
      mul_split from r.at to l.per_sec h le,
      eq_iff r.key k,
    )

-- Over any run of requests of any keys, in the order of their times, a key is served at most its burst
-- and what its rate gives in the time of the run.
pub served_bound :
    (k : Str) (l : Limiter) (from to : ℕ) (rs : List Request)
    → IsValid l
    → InOrder from to rs
    → served k l rs * unit ≤ l.burst + (to - from) * l.per_sec
unfolding level
served_bound k l from to rs v h =
    omega (arith, served-level k l from to rs v h, current-le_burst l k from v)

patient_full :
    (burst per_sec now : ℕ) (o : Option Bucket)
    → unit ≤ burst
    → 0 < per_sec
    → ((b : Bucket) → o ≡ some b → b.last + unit ≤ now)
    → unit ≤ (bucket_at burst per_sec now o).tokens
unfolding bucket_at refill
patient_full burst per_sec now none full pos wait = full
patient_full burst per_sec now (some b) full pos wait =
    ground (arith, wait b refl, mul_mono 1 per_sec (now - b.last))

-- A key that is new, or whose bucket was last filled a second ago or more, is served, if the limiter
-- is valid and its rate is at least one token a second.
pub allow_patient :
    (l : Limiter) (k : Str) (now : ℕ)
    → IsValid l
    → 1 ≤ l.per_sec
    → ((b : Bucket) → lookup k l.buckets ≡ some b → b.last + unit ≤ now)
    → (allow l k now).0 ≡ true
unfolding level current
allow_patient l k now v pos wait =
    allow-served l k now
    ∙ le→leb unit (level l k now)
        (patient_full l.burst l.per_sec now (lookup k l.buckets) v.burst_pos pos wait)
