-- ===== src/Common/Sorting.antt =====
-- sort.Strings and sort.SliceStable as insertion sorts by a test for "strictly before".
use mathlib.Core.List.{Perm}
use mathlib.Core.List.Perm
use rdda.Common.{
  Bool, false, List, [], ◌∷◌, ◌≡◌, refl, ◌∙◌, ◌||◌, arith, if◌then◌else◌, Bool-cases, inl, inr, Eq,
  ◌==◌, eq_iff, All,
}
use rdda.Common.Assoc.{mem, Unique}

module _ {ℓ} {A : Type ℓ} (before : A → A → Bool) where
  -- Ahead of the first element that is not strictly before it, so equal elements keep their order.
  unfoldable pub insert_sorted : A → List A → List A
  insert_sorted x [] = x ∷ []
  insert_sorted x (y ∷ ys) = if before y x then y ∷ insert_sorted x ys else x ∷ y ∷ ys

  unfoldable pub sort : List A → List A
  unfolding insert_sorted
  sort [] = []
  sort (x ∷ xs) = insert_sorted x (sort xs)

  pub insert_sorted-Perm : (x : A) (ys : List A) → Perm (insert_sorted x ys) (x ∷ ys)
  unfolding insert_sorted
  insert_sorted-Perm x [] = Perm.refl _
  insert_sorted-Perm x (y ∷ ys) = elim (Bool-cases (before y x)) [
    | inl b ↦ rw b (Perm.trans (Perm.cons y (insert_sorted-Perm x ys)) (Perm.swap x y ys))
    | inr b ↦ rw b (Perm.refl _)
  ]

  pub sort-Perm : (xs : List A) → Perm (sort xs) xs
  unfolding sort
  sort-Perm [] = Perm.refl _
  sort-Perm (x ∷ xs) = Perm.trans (insert_sorted-Perm x (sort xs)) (Perm.cons x (sort-Perm xs))

  -- No element is strictly before one that stands ahead of it.
  abbrev pub InOrder : List A → Type ℓ
  InOrder [] = Unit
  InOrder (x ∷ xs) = All (λ y. before y x ≡ false) xs × InOrder xs

module _ {ℓ} {A : Type ℓ} ⦃e : Eq A⦄ (before : A → A → Bool) where
  mem-insert_sorted :
      (k x : A) (ys : List A) → mem k (insert_sorted before x ys) ≡ (x == k || mem k ys)
  unfolding insert_sorted mem
  mem-insert_sorted k x [] = refl
  mem-insert_sorted k x (y ∷ ys) = ground (arith, mem-insert_sorted k x ys)

  pub mem-sort : (k : A) (xs : List A) → mem k (sort before xs) ≡ mem k xs
  unfolding sort mem
  mem-sort k [] = refl
  mem-sort k (x ∷ xs) = ground (arith, mem-insert_sorted k x (sort before xs), mem-sort k xs)

  insert_sorted-Unique :
      (x : A) (ys : List A) → mem x ys ≡ false → Unique ys → Unique (insert_sorted before x ys)
  unfolding insert_sorted
  insert_sorted-Unique x [] f u = (unfold mem in refl, tt)
  insert_sorted-Unique x (y ∷ ys) f (fresh, u) = elim (Bool-cases (before y x)) [
    | inl b ↦ rw b (ahead f, insert_sorted-Unique x ys (behind f) u)
    | inr b ↦ rw b (f, (fresh, u))
  ]
    where
      ahead : mem x (y ∷ ys) ≡ false → mem y (insert_sorted before x ys) ≡ false
      ahead f = unfold mem in ground (arith, mem-insert_sorted y x ys, eq_iff x y, eq_iff y x)

      behind : mem x (y ∷ ys) ≡ false → mem x ys ≡ false
      behind f = unfold mem in ground arith

  pub sort-Unique : (xs : List A) → Unique xs → Unique (sort before xs)
  unfolding sort
  sort-Unique [] u = tt
  sort-Unique (x ∷ xs) (f, u) =
      insert_sorted-Unique x (sort before xs) (mem-sort x xs ∙ f) (sort-Unique xs u)
