-- ===== src/Dest/Ranking.antt =====
-- The host that is picked from the ranking.
use mathlib.Core.List.{Perm}
use mathlib.Core.Bool.{true≢false}
use rdda.Common.{
  sym, true, false, List, [], ◌∷◌, Option, none, some, Str, ◌≡◌, refl, arith, map, ltb,
  if◌then◌else◌, Bool-cases, inl, inr, ◌∙◌, ap,
}
use rdda.Common.Sorting.{sort, insert_sorted, sort-Perm}
use rdda.Dest.{Probed, before, best, discover}

-- The nearest of the validating hosts, the first of them where several are as near.
pub nearer : Probed → Option Probed → Option Probed
nearer r none = if r.is_ok then some r else none
nearer r (some s) = if r.is_ok then (if ltb s.rtt r.rtt then some s else some r) else some s

pub nearest : List Probed → Option Probed
unfolding nearer
nearest [] = none
nearest (r ∷ rs) = nearer r (nearest rs)

-- Behind a host that did not validate there is none that did.
abbrev Ranked : List Probed → Type 0
Ranked [] = Unit
Ranked (r ∷ rs) = (r.is_ok ≡ false → best rs ≡ none) × Ranked rs

none_behind :
    (x y : Probed) (ys : List Probed)
    → (y.is_ok ≡ false → best ys ≡ none)
    → before y x ≡ false
    → x.is_ok ≡ false
    → best (y ∷ ys) ≡ none
unfolding best before
none_behind x y ys h b e = ground (arith, h)

ok_before : (x y : Probed) → before y x ≡ true → y.is_ok ≡ true
unfolding before
ok_before x y b = ground arith

insert_sorted-Ranked :
    (x : Probed) (ys : List Probed) → Ranked ys → Ranked (insert_sorted before x ys)
unfolding insert_sorted
insert_sorted-Ranked x [] h = (λ e. unfold best in refl, tt)
insert_sorted-Ranked x (y ∷ ys) (h, hs) = elim (Bool-cases (before y x)) [
  | inl b ↦
      rw b (λ e. absurd (true≢false (sym (ok_before x y b) ∙ e)), insert_sorted-Ranked x ys hs)
  | inr b ↦ rw b (none_behind x y ys h b, (h, hs))
]

best-insert_sorted :
    (x : Probed) (ys : List Probed)
    → Ranked ys
    → best (insert_sorted before x ys) ≡ nearer x (best ys)
unfolding insert_sorted best nearer before
best-insert_sorted x [] h = ground arith
best-insert_sorted x (y ∷ ys) (h, hs) = ground (arith, h)

sort-Ranked : (rs : List Probed) → Ranked (sort before rs)
unfolding sort
sort-Ranked [] = tt
sort-Ranked (r ∷ rs) = insert_sorted-Ranked r (sort before rs) (sort-Ranked rs)

best-sort : (rs : List Probed) → best (sort before rs) ≡ nearest rs
unfolding sort nearest
best-sort [] = unfold best in refl
best-sort (r ∷ rs) =
    best-insert_sorted r (sort before rs) (sort-Ranked rs) ∙ ap (nearer r) (best-sort rs)

-- Discover ranks every host's result, none lost and none added, and the pick from its ranking is the
-- first of the nearest hosts that validate; there is no pick just where a search for one finds none.
pub best-discover :
    (p : Str → Probed) (hosts : List Str)
    → Perm (discover p hosts) (map p hosts) × (best (discover p hosts) ≡ nearest (map p hosts))
unfolding discover
best-discover p hosts = (sort-Perm before (map p hosts), best-sort (map p hosts))
