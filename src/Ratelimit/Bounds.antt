-- ===== src/Ratelimit/Bounds.antt =====
-- A bucket never holds more than the burst, and a sweep drops no bucket that still counts.
use rdda.Common.{
  ℕ, ◌-◌, ◌≤◌, List, [], ◌∷◌, Option, none, some, ◌≡◌, refl, ◌==◌, Str, str_instance, eq_iff, leb,
  arith, if◌then◌else◌, ltb, Bool-cases, inl, inr, Option-cases,
}
use rdda.Common.Assoc.{lookup, insert, Distinct, insert-Distinct}
use rdda.Ratelimit.{
  unit, Bucket, Limiter, new, refill, bucket_at, current, is_idle, drop_idle, sweep, charge, allow,
}

abbrev pub Full : ℕ → List (Str × Bucket) → Type 0
Full burst [] = Unit
Full burst ((k, b) ∷ m) = (b.tokens ≤ burst) × Full burst m

-- Every bucket is within the burst, which holds at least one token, and a key has one bucket.
pub record IsValid (l : Limiter) : Type 0 where
  pub burst_pos : unit ≤ l.burst
  pub within : Full l.burst l.buckets
  pub distinct : Distinct l.buckets

pub new-IsValid : (burst per_sec : ℕ) → IsValid (new burst per_sec)
unfolding new
new-IsValid burst per_sec = record { burst_pos = grind arith; within = tt; distinct = tt }

unfoldable pub survivor : ℕ → ℕ → ℕ → Option Bucket → Option Bucket
survivor burst per_sec now none = none
survivor burst per_sec now (some b) = if is_idle burst per_sec now b then none else some b

pub lookup-drop_idle :
    (burst per_sec now : ℕ) (k : Str) (m : List (Str × Bucket))
    → Distinct m
    → lookup k (drop_idle burst per_sec now m) ≡ survivor burst per_sec now (lookup k m)
unfolding lookup drop_idle survivor
lookup-drop_idle burst per_sec now k [] d = refl
lookup-drop_idle burst per_sec now k ((j, b) ∷ m) (fresh, d) =
    ground (arith, lookup-drop_idle burst per_sec now k m d, eq_iff j k)

pub drop_idle-Distinct :
    (burst per_sec now : ℕ) (m : List (Str × Bucket))
    → Distinct m
    → Distinct (drop_idle burst per_sec now m)
unfolding drop_idle
drop_idle-Distinct burst per_sec now [] d = tt
drop_idle-Distinct burst per_sec now ((j, b) ∷ m) (fresh, d) =
    elim (Bool-cases (is_idle burst per_sec now b)) [
      | inl idle ↦ rw idle (drop_idle-Distinct burst per_sec now m d)
      | inr busy ↦ rw busy (
        rw (lookup-drop_idle burst per_sec now j m d, fresh) (unfold survivor in refl),
        drop_idle-Distinct burst per_sec now m d,
      )
    ]

drop_idle-Full :
    (burst per_sec now : ℕ) (m : List (Str × Bucket))
    → Full burst m
    → Full burst (drop_idle burst per_sec now m)
unfolding drop_idle
drop_idle-Full burst per_sec now [] h = tt
drop_idle-Full burst per_sec now ((j, b) ∷ m) (hb, h) =
    elim (Bool-cases (is_idle burst per_sec now b)) [
      | inl idle ↦ rw idle (drop_idle-Full burst per_sec now m h)
      | inr busy ↦ rw busy (hb, drop_idle-Full burst per_sec now m h)
    ]

insert-Full :
    (burst : ℕ) (k : Str) (b : Bucket) (m : List (Str × Bucket))
    → b.tokens ≤ burst
    → Full burst m
    → Full burst (insert k b m)
unfolding insert
insert-Full burst k b [] hb h = (hb, tt)
insert-Full burst k b ((j, c) ∷ m) hb (hc, h) = elim (Bool-cases (j == k)) [
  | inl same ↦ rw same (hb, h)
  | inr other ↦ rw other (hc, insert-Full burst k b m hb h)
]

charge-Full :
    (burst : ℕ) (k : Str) (b : Bucket) (m : List (Str × Bucket))
    → b.tokens ≤ burst
    → Full burst m
    → Full burst (charge k b m)
unfolding charge
charge-Full burst k b [] hb h = tt
charge-Full burst k b ((j, c) ∷ m) hb (hc, h) = elim (Bool-cases (j == k)) [
  | inl same ↦ rw same (hb, h)
  | inr other ↦ rw other (hc, charge-Full burst k b m hb h)
]

pub lookup-charge :
    (k j : Str) (b : Bucket) (m : List (Str × Bucket))
    → lookup j (charge k b m)
      ≡ (if k == j then (elim (lookup j m) [ none ↦ none | some c ↦ some b ]) else lookup j m)
unfolding lookup charge
lookup-charge k j b [] = ground arith
lookup-charge k j b ((i, c) ∷ m) =
    ground (arith, eq_iff k j, eq_iff i k, eq_iff i j, lookup-charge k j b m)

charge-Distinct :
    (k : Str) (b : Bucket) (m : List (Str × Bucket)) → Distinct m → Distinct (charge k b m)
unfolding charge
charge-Distinct k b [] d = tt
charge-Distinct k b ((j, c) ∷ m) (fresh, d) = elim (Bool-cases (j == k)) [
  | inl same ↦ rw same (rw (← (eq_iff j k).0 same) fresh, d)
  | inr other ↦ rw other (ground (arith, lookup-charge k j b m), charge-Distinct k b m d)
]

lookup-Full :
    (burst : ℕ) (k : Str) (m : List (Str × Bucket)) (b : Bucket)
    → Full burst m
    → lookup k m ≡ some b
    → b.tokens ≤ burst
unfolding lookup
lookup-Full burst k [] b h e = cc
lookup-Full burst k ((j, c) ∷ m) b (hc, h) e = ground (arith, lookup-Full burst k m b h)

refill-le_burst :
    (burst per_sec now : ℕ) (b : Bucket)
    → b.tokens ≤ burst
    → (refill burst per_sec now b).tokens ≤ burst
unfolding refill
refill-le_burst burst per_sec now b h = ground arith

pub current-le_burst :
    (l : Limiter) (k : Str) (now : ℕ) → IsValid l → (current l k now).tokens ≤ l.burst
unfolding current bucket_at
current-le_burst l k now v = elim (Option-cases (lookup k l.buckets)) [
  | inl e ↦ rw (e, current, bucket_at) (omega arith)
  | inr (b, e) ↦
      rw (e, current, bucket_at)
        (refill-le_burst l.burst l.per_sec now b (lookup-Full l.burst k l.buckets b v.within e))
]

pub sweep-IsValid : (l : Limiter) (now : ℕ) → IsValid l → IsValid (sweep l now)
unfolding sweep
sweep-IsValid l now v =
    let full = drop_idle-Full l.burst l.per_sec now l.buckets v.within in
    let distinct = drop_idle-Distinct l.burst l.per_sec now l.buckets v.distinct in
    elim (Bool-cases (ltb (now - l.last_sweep) l.sweep_every)) [
      | inl early ↦ rw early v
      | inr due ↦ elim (Bool-cases (leb l.per_sec 0)) [
        | inl none_due ↦
            rw (due, none_due)
              (record { burst_pos = v.burst_pos; within = v.within; distinct = v.distinct })
        | inr refills ↦
            rw (due, refills)
              (record { burst_pos = v.burst_pos; within = full; distinct = distinct })
      ]
    ]

-- The limiter after a request's look-up and refill, before the sweep.
abbrev pub touched : Limiter → Str → ℕ → Limiter
touched l k now = record l { buckets = insert k (current l k now) l.buckets }

pub touched-IsValid : (l : Limiter) (k : Str) (now : ℕ) → IsValid l → IsValid (touched l k now)
touched-IsValid l k now v = record {
  burst_pos = v.burst_pos;
  within = insert-Full l.burst k (current l k now) l.buckets (current-le_burst l k now v) v.within;
  distinct = insert-Distinct k (current l k now) l.buckets v.distinct;
}

pub sweep-burst : (l : Limiter) (now : ℕ) → (sweep l now).burst ≡ l.burst
unfolding sweep
sweep-burst l now = ground arith

charge-IsValid :
    (l : Limiter) (k : Str) (b : Bucket)
    → b.tokens ≤ l.burst
    → IsValid l
    → IsValid (record l { buckets = charge k b l.buckets })
charge-IsValid l k b h v = record {
  burst_pos = v.burst_pos;
  within = charge-Full l.burst k b l.buckets h v.within;
  distinct = charge-Distinct k b l.buckets v.distinct;
}

-- Every request keeps the limiter valid: no bucket holds more than the burst, and no key has two
-- buckets.
pub allow-IsValid : (l : Limiter) (k : Str) (now : ℕ) → IsValid l → IsValid (allow l k now).1
unfolding allow
allow-IsValid l k now v =
    let swept = sweep (touched l k now) now in
    let valid : IsValid swept = sweep-IsValid (touched l k now) now (touched-IsValid l k now v) in
    let b = current l k now in
    elim (Bool-cases (ltb b.tokens unit)) [
      | inl empty ↦ rw empty valid
      | inr enough ↦ rw enough (
          charge-IsValid swept k (record b { tokens = b.tokens - unit })
            (rw sweep-burst (omega (arith, current-le_burst l k now v))) valid)
    ]
