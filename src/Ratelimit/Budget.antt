-- ===== src/Ratelimit/Budget.antt =====
-- What the limiter promises: a sweep is not seen by any key, a key is served no more than its burst
-- and its rate allow, and a patient key is served.
use native.Mathlib.Nat.{add-mul}
use rdda.Common.{
  ℕ, ◌+◌, ◌-◌, ◌*◌, ◌≤◌, true, false, Option, none, some, ◌≡◌, refl, sym, ◌∙◌, ◌==◌, ◌&&◌, Str,
  str_instance, eq_iff, leb, ltb, arith, Bool-cases, inl, inr, ap,
}
use rdda.Common.Assoc.{lookup, lookup-insert}
use rdda.Ratelimit.{unit, Bucket, Limiter, refill, bucket_at, current, is_idle, sweep}
use rdda.Ratelimit.Bounds.{IsValid, lookup-drop_idle, survivor, touched, touched-IsValid}

-- A bucket that a refill at this time leaves alone.
abbrev pub IsSettled : ℕ → ℕ → Bucket → Type 0
IsSettled per_sec now b = (ltb b.last now && ltb 0 per_sec) ≡ false

pub refill_settled :
    (burst per_sec now : ℕ) (b : Bucket) → IsSettled per_sec now b → refill burst per_sec now b ≡ b
unfolding refill
refill_settled burst per_sec now b h = rw h

refill-IsSettled :
    (burst per_sec now : ℕ) (b : Bucket) → IsSettled per_sec now (refill burst per_sec now b)
unfolding refill
refill-IsSettled burst per_sec now b = ground arith

bucket_at-IsSettled :
    (burst per_sec now : ℕ) (o : Option Bucket)
    → IsSettled per_sec now (bucket_at burst per_sec now o)
unfolding bucket_at
bucket_at-IsSettled burst per_sec now none = ground arith
bucket_at-IsSettled burst per_sec now (some b) = refill-IsSettled burst per_sec now b

pub current-IsSettled :
    (l : Limiter) (k : Str) (now : ℕ) → IsSettled l.per_sec now (current l k now)
unfolding current
current-IsSettled l k now = bucket_at-IsSettled l.burst l.per_sec now (lookup k l.buckets)

survivor-busy :
    (burst per_sec now : ℕ) (b : Bucket)
    → is_idle burst per_sec now b ≡ false
    → survivor burst per_sec now (some b) ≡ some b
unfolding survivor
survivor-busy burst per_sec now b h = rw h

settled_busy :
    (burst per_sec now : ℕ) (b : Bucket)
    → unit ≤ burst
    → IsSettled per_sec now b
    → is_idle burst per_sec now b ≡ false
unfolding is_idle
settled_busy burst per_sec now b pos h = grind arith

pub mul_mono : (a b p : ℕ) → a ≤ b → a * p ≤ b * p
mul_mono a b p h = grind arith

pub mul_split : (s t t' p : ℕ) → s ≤ t → t ≤ t' → (t' - s) * p ≡ (t - s) * p + (t' - t) * p
mul_split s t t' p h k =
    let e : t' - s ≡ (t - s) + (t' - t) = omega arith in rw e (add-mul (t - s) (t' - t) p)

-- A bucket that is dropped as idle would have been full at every later request.
idle_full :
    (burst per_sec t t' : ℕ) (b : Bucket)
    → unit ≤ burst
    → t ≤ t'
    → is_idle burst per_sec t b ≡ true
    → refill burst per_sec t' b ≡ record { tokens = burst; last = t' }
unfolding refill is_idle
idle_full burst per_sec t t' b pos le h =
    ground (arith, mul_mono (t - b.last) (t' - b.last) per_sec)

level_later :
    (burst per_sec t t' : ℕ) (b : Bucket)
    → t ≤ t'
    → (refill burst per_sec t' b).tokens ≤ (refill burst per_sec t b).tokens + (t' - t) * per_sec
unfolding refill
level_later burst per_sec t t' b le =
    ground (arith, mul_split b.last t t' per_sec, mul_mono (t' - b.last) (t' - t) per_sec)

bucket_at-survivor :
    (burst per_sec t t' : ℕ) (o : Option Bucket)
    → unit ≤ burst
    → t ≤ t'
    → bucket_at burst per_sec t' (survivor burst per_sec t o) ≡ bucket_at burst per_sec t' o
unfolding survivor bucket_at
bucket_at-survivor burst per_sec t t' none pos le = refl
bucket_at-survivor burst per_sec t t' (some b) pos le =
    elim (Bool-cases (is_idle burst per_sec t b)) [
      | inl idle ↦ rw idle (sym (idle_full burst per_sec t t' b pos le idle))
      | inr busy ↦ rw busy
    ]

bucket_at_later :
    (burst per_sec t t' : ℕ) (o : Option Bucket)
    → t ≤ t'
    → (bucket_at burst per_sec t' o).tokens
      ≤ (bucket_at burst per_sec t o).tokens + (t' - t) * per_sec
unfolding bucket_at
bucket_at_later burst per_sec t t' none le = omega arith
bucket_at_later burst per_sec t t' (some b) le = level_later burst per_sec t t' b le

-- A sweep is not seen by any key: at every later time, each key's bucket is the one that it would be
-- without the sweep, which only frees memory.
pub sweep_lossless :
    (l : Limiter) (k : Str) (t t' : ℕ)
    → IsValid l
    → t ≤ t'
    → current (sweep l t) k t' ≡ current l k t'
unfolding sweep current
sweep_lossless l k t t' v le = elim (Bool-cases (ltb (t - l.last_sweep) l.sweep_every)) [
  | inl early ↦ rw early
  | inr due ↦ elim (Bool-cases (leb l.per_sec 0)) [
    | inl fixed ↦ rw (due, fixed)
    | inr refills ↦
        rw (due, refills, lookup-drop_idle l.burst l.per_sec t k l.buckets v.distinct)
          (bucket_at-survivor l.burst l.per_sec t t' (lookup k l.buckets) v.burst_pos le)
  ]
]

-- What a key has to spend at a time.
unfoldable pub level : Limiter → Str → ℕ → ℕ
level l k now = (current l k now).tokens

pub level-later :
    (l : Limiter) (k : Str) (t t' : ℕ) → t ≤ t' → level l k t' ≤ level l k t + (t' - t) * l.per_sec
unfolding level current
level-later l k t t' le = bucket_at_later l.burst l.per_sec t t' (lookup k l.buckets) le

bucket_at_current :
    (l : Limiter) (k : Str) (now : ℕ)
    → bucket_at l.burst l.per_sec now (some (current l k now)) ≡ current l k now
unfolding bucket_at
bucket_at_current l k now =
    refill_settled l.burst l.per_sec now (current l k now) (current-IsSettled l k now)

-- Looking a key up does not change what any key has to spend.
pub current-touched :
    (l : Limiter) (j k : Str) (now : ℕ) → current (touched l j now) k now ≡ current l k now
current-touched l j k now = elim (Bool-cases (j == k)) [
  | inl same ↦
      unfold current in
      rw lookup-insert
        (rw same (bucket_at_current l j now ∙ ap (λ i. current l i now) ((eq_iff j k).0 same)))
  | inr other ↦ unfold current in rw lookup-insert (rw other)
]

pub swept_kept :
    (l : Limiter) (k : Str) (now : ℕ)
    → IsValid l
    → lookup k (sweep (touched l k now) now).buckets ≡ some (current l k now)
unfolding sweep
swept_kept l k now v =
    let found = lookup-insert k k (current l k now) l.buckets in
    let kept =
      lookup-drop_idle l.burst l.per_sec now k (touched l k now).buckets
        (touched-IsValid l k now v).distinct in
    let busy =
      settled_busy l.burst l.per_sec now (current l k now) v.burst_pos
        (current-IsSettled l k now) in
    ground (
      arith,
      found,
      kept,
      busy,
      eq_iff k k,
      survivor-busy l.burst l.per_sec now (current l k now) busy,
    )
