-- ===== src/Common/Assoc.antt =====
-- Go's maps as association lists with one entry for each key.
use mathlib.Core.Path.{◌≡◌, refl, sym, ◌∙◌}
use mathlib.Core.Bool.{Bool, false, ◌||◌, true≢false}
use mathlib.Core.Logic.{inl, inr}
use mathlib.Core.Option.{Option, none, some}
use mathlib.Core.List.{List, [], ◌∷◌, ◌++◌}
use native.Mathlib.Omega.{arith}
use rdda.Common.Tests.{if◌then◌else◌, Bool-cases, is_some}
use rdda.Common.Text.{Eq, ◌==◌, eq_iff, not_eq}

module _ {ℓ κ} {K : Type ℓ} {V : Type κ} ⦃e : Eq K⦄ where
  unfoldable pub lookup : K → List (K × V) → Option V
  lookup k [] = none
  lookup k ((j, v) ∷ m) = if j == k then some v else lookup k m

  unfoldable pub insert : K → V → List (K × V) → List (K × V)
  insert key new [] = (key, new) ∷ []
  insert key new ((i, old) ∷ rest) =
      let kept = insert key new rest in if i == key then (key, new) ∷ rest else (i, old) ∷ kept

  unfoldable pub delete : K → List (K × V) → List (K × V)
  delete k [] = []
  delete k ((j, w) ∷ m) = let rest = delete k m in if j == k then rest else (j, w) ∷ rest

  pub lookup-insert :
      (k q : K) (new : V) (m : List (K × V))
      → lookup q (insert k new m) ≡ (if k == q then some new else lookup q m)
  unfolding lookup insert
  lookup-insert k q new [] = refl
  lookup-insert k q new ((i, old) ∷ rest) =
      ground (arith, lookup-insert k q new rest, eq_iff k q, eq_iff i k, eq_iff i q)

  pub lookup-delete :
      (k j : K) (m : List (K × V)) → lookup j (delete k m) ≡ (if k == j then none else lookup j m)
  unfolding lookup delete
  lookup-delete k j [] = ground arith
  lookup-delete k j ((i, w) ∷ m) =
      ground (arith, eq_iff k j, eq_iff i k, eq_iff i j, lookup-delete k j m)

abbrev pub keys {ℓ κ} : {K : Type ℓ} {V : Type κ} → List (K × V) → List K
keys [] = []
keys ((k, v) ∷ m) = k ∷ keys m

-- Membership as a test.
module _ {ℓ} {K : Type ℓ} ⦃e : Eq K⦄ where
  unfoldable pub mem : K → List K → Bool
  mem k [] = false
  mem k (j ∷ js) = j == k || mem k js

-- One entry for each key.
module _ {ℓ κ} {K : Type ℓ} {V : Type κ} ⦃e : Eq K⦄ where
  abbrev pub Distinct : List (K × V) → Type κ
  Distinct [] = Unit
  Distinct ((k, v) ∷ m) = (lookup k m ≡ none) × Distinct m

  pub insert-Distinct : (k : K) (v : V) (m : List (K × V)) → Distinct m → Distinct (insert k v m)
  unfolding insert
  insert-Distinct k v [] d = (unfold lookup in refl, tt)
  insert-Distinct k v ((j, w) ∷ m) (fresh, d) = elim (Bool-cases (j == k)) [
    | inl same ↦ rw same (rw (← (eq_iff j k).0 same) fresh, d)
    | inr other ↦ rw other (
      rw
          (
            lookup-insert k j v m,
            not_eq k j (λ p. true≢false (sym ((eq_iff j k).1 (sym p)) ∙ other)),
          )
          fresh,
      insert-Distinct k v m d,
    )
  ]

  pub delete-Distinct : (k : K) (m : List (K × V)) → Distinct m → Distinct (delete k m)
  unfolding delete
  delete-Distinct k [] d = tt
  delete-Distinct k ((j, w) ∷ m) (fresh, d) = elim (Bool-cases (j == k)) [
    | inl same ↦ rw same (delete-Distinct k m d)
    | inr other ↦ rw other (absent, delete-Distinct k m d)
  ]
    where
      absent : lookup j (delete k m) ≡ none
      absent = ground (arith, lookup-delete k j m)

module _ {ℓ} {K : Type ℓ} ⦃e : Eq K⦄ where
  pub mem-append : (k : K) (xs ys : List K) → mem k (xs ++ ys) ≡ (mem k xs || mem k ys)
  unfolding mem
  mem-append k [] ys = refl
  mem-append k (x ∷ xs) ys = ground (arith, mem-append k xs ys)

  -- No key twice.
  abbrev pub Unique : List K → Type 0
  Unique [] = Unit
  Unique (x ∷ xs) = (mem x xs ≡ false) × Unique xs

module _ {ℓ κ} {K : Type ℓ} {V : Type κ} ⦃e : Eq K⦄ where
  pub mem-keys : (k : K) (m : List (K × V)) → mem k (keys m) ≡ is_some (lookup k m)
  unfolding mem lookup
  mem-keys k [] = refl
  mem-keys k ((j, v) ∷ m) = ground (arith, mem-keys k m, eq_iff j k)

  pub keys-Unique : (m : List (K × V)) → Distinct m → Unique (keys m)
  keys-Unique [] d = tt
  keys-Unique ((k, v) ∷ m) (fresh, d) = (rw (mem-keys k m) (rw fresh), keys-Unique m d)
