-- ===== src/Common/Paths/Components.antt =====
-- The components of a path that filepath.Clean gives.
use mathlib.Core.Bool.{true≢false}
use mathlib.Core.Path.{subst}
use rdda.Common.{
  append-nil, All-append, ℕ, false, List, [], ◌∷◌, ◌++◌, Str, codes, ◌==◌, nat_eq, str_instance,
  ◌||◌, ◌≡◌, ◌≢◌, ◌⊎◌, refl, sym, ◌∙◌, ap, inl, inr, All, Bool-cases, eq_iff, not_eq, arith,
  if◌then◌else◌, has_prefix, split_on, str_eq,
}
use rdda.Common.Text.{prepend}
use rdda.Common.Paths
use rdda.Common.Paths.{clean}

abbrev slash : ℕ
slash = b'/'

-- No slash in it.
abbrev Plain : Str → Type 0
Plain s = All (λ c. c ≢ slash) s

-- The name of a file or a directory: not empty, and not one of the two that go nowhere or up.
abbrev pub IsName : Str → Type 0
IsName s = (s ≢ []) × (s ≢ codes ".") × (s ≢ codes "..")

split_on-none : (s : Str) → Plain s → split_on slash s ≡ s ∷ []
unfolding split_on
split_on-none [] h = refl
split_on-none (c ∷ s) (hc, h) = ground (arith, split_on-none s h)

pub split_on-cons : (s : Str) → (p : Str) × (ps : List Str) × (split_on slash s ≡ p ∷ ps)
unfolding split_on prepend
split_on-cons [] = ([], [], refl)
split_on-cons (c ∷ s) = elim (Bool-cases (c == slash)) [
  | inl b ↦ rw b ([], split_on slash s, refl)
  | inr b ↦ let (p, ps, h) = split_on-cons s in rw (b, h) (c ∷ p, ps, refl)
]

pub split_on-append :
    (s rest : Str) → Plain s → split_on slash (s ++ slash ∷ rest) ≡ s ∷ split_on slash rest
unfolding split_on
split_on-append [] rest h = refl
split_on-append (c ∷ s) rest (hc, h) = ground (arith, split_on-append s rest h)

prepend-Plain : (c : ℕ) (ps : List Str) → c ≢ slash → All Plain ps → All Plain (prepend c ps)
unfolding prepend
prepend-Plain c [] hc h = ((hc, tt), tt)
prepend-Plain c (p ∷ ps) hc (hp, h) = ((hc, hp), h)

split_on-Plain : (s : Str) → All Plain (split_on slash s)
unfolding split_on
split_on-Plain [] = (tt, tt)
split_on-Plain (c ∷ s) = elim (Bool-cases (c == slash)) [
  | inl b ↦ rw b (tt, split_on-Plain s)
  | inr b ↦ rw b (
      prepend-Plain c (split_on slash s) (λ p. true≢false (sym ((eq_iff c slash).1 p) ∙ b))
        (split_on-Plain s))
]

differs : (a b : Str) → (a == b) ≡ false → a ≢ b
differs a b h p = true≢false (sym ((eq_iff a b).1 p) ∙ h)

clean_step-IsName :
    (c : Str) → (c == [] || c == codes ".") ≡ false → (c == codes "..") ≡ false → IsName c
clean_step-IsName c h up =
    let empty : (c == []) ≡ false = ground arith in
    let dot : (c == codes ".") ≡ false = ground arith in
    (differs c [] empty, differs c (codes ".") dot, differs c (codes "..") up)

-- What the stack of Clean holds for a path that is not rooted: names above the steps up.
abbrev Stack : List Str → Type 0
Stack stack =
    (names ups : List Str) × (stack ≡ names ++ ups)
    × All (λ c. IsName c × Plain c) names
    × All (λ c. c ≡ codes "..") ups

-- A component is taken over, with the stack split into names and steps up.
module _ (c : Str) (h : Plain c) where
  pushed_names :
      (n : Str) (names ups : List Str)
      → All (λ c. IsName c × Plain c) (n ∷ names)
      → All (λ c. c ≡ codes "..") ups
      → Stack (Paths.clean_step false c (n ∷ names ++ ups))
  unfolding Paths.clean_step
  pushed_names n names ups (hn, ns) u = elim (Bool-cases (c == [] || c == codes ".")) [
    | inl skip ↦ rw skip (n ∷ names, ups, refl, (hn, ns), u)
    | inr real ↦ elim (Bool-cases (c == codes "..")) [
      | inl up ↦ rw (real, up, not_eq n (codes "..") hn.0.2) (names, ups, refl, ns, u)
      | inr named ↦
          rw (real, named)
            (c ∷ n ∷ names, ups, refl, ((clean_step-IsName c real named, h), (hn, ns)), u)
    ]
  ]

  pushed_ups :
      (ups : List Str) → All (λ c. c ≡ codes "..") ups → Stack (Paths.clean_step false c ups)
  unfolding Paths.clean_step
  pushed_ups [] u = elim (Bool-cases (c == [] || c == codes ".")) [
    | inl skip ↦ rw skip ([], [], refl, tt, tt)
    | inr real ↦ elim (Bool-cases (c == codes "..")) [
      | inl up ↦ rw (real, up) ([], c ∷ [], refl, tt, ((eq_iff c (codes "..")).0 up, tt))
      | inr named ↦
          rw (real, named) (c ∷ [], [], refl, ((clean_step-IsName c real named, h), tt), tt)
    ]
  ]
  pushed_ups (top ∷ ups) (ht, u) = elim (Bool-cases (c == [] || c == codes ".")) [
    | inl skip ↦ rw skip ([], top ∷ ups, refl, tt, (ht, u))
    | inr real ↦ elim (Bool-cases (c == codes "..")) [
      | inl up ↦
          rw (real, up, (eq_iff top (codes "..")).1 ht)
            ([], c ∷ top ∷ ups, refl, tt, ((eq_iff c (codes "..")).0 up, (ht, u)))
      | inr named ↦
          rw (real, named)
            (c ∷ [], top ∷ ups, refl, ((clean_step-IsName c real named, h), tt), (ht, u))
    ]
  ]

  pushed :
      (names ups : List Str)
      → All (λ c. IsName c × Plain c) names
      → All (λ c. c ≡ codes "..") ups
      → Stack (Paths.clean_step false c (names ++ ups))
  pushed [] ups n u = pushed_ups ups u
  pushed (n ∷ names) ups h u = pushed_names n names ups h u

clean_step-Stack :
    (c : Str) (stack : List Str) → Plain c → Stack stack → Stack (Paths.clean_step false c stack)
clean_step-Stack c stack h (names, ups, split, n, u) =
    subst (λ s. Stack (Paths.clean_step false c s)) (sym split) (pushed c h names ups n u)

clean_all-Stack :
    (cs stack : List Str) → All Plain cs → Stack stack → Stack (Paths.clean_all false cs stack)
unfolding Paths.clean_all
clean_all-Stack [] stack h s = s
clean_all-Stack (c ∷ cs) stack (hc, h) s =
    clean_all-Stack cs (Paths.clean_step false c stack) h (clean_step-Stack c stack hc s)

-- The path of a stack, onto the path of the components after it.
abbrev Reads : Str → List Str → Type 0
Reads path cs = ((path ≡ []) × (cs ≡ [])) ⊎ ((path ≢ []) × (split_on slash path ≡ cs))

unfoldable onto : List Str → List Str → List Str
onto [] cs = cs
onto (c ∷ stack) cs = onto stack (c ∷ cs)

not_empty : (a b : Str) → a ≢ [] → a ++ b ≢ []
not_empty [] b h = absurd (h refl)
not_empty (c ∷ a) b h = λ p. cc

one_more :
    (c path : Str) (cs : List Str)
    → c ≢ []
    → Plain c
    → Reads path cs
    → Reads (c ++ (if path == [] then [] else slash ∷ path)) (c ∷ cs)
unfolding str_eq split_on
one_more c path cs real h (inl (p, q)) = rw (p, q, append-nil c) (inr (real, split_on-none c h))
one_more c path cs real h (inr (p, q)) =
    rw (not_eq path [] p)
      (inr (not_empty c (slash ∷ path) real, split_on-append c path h ∙ ap (λ ps. c ∷ ps) q))

joined-Reads :
    (stack : List Str) (path : Str) (cs : List Str)
    → All (λ c. (c ≢ []) × Plain c) stack
    → Reads path cs
    → Reads (Paths.joined stack path) (onto stack cs)
unfolding Paths.joined onto
joined-Reads [] path cs h r = r
joined-Reads (c ∷ stack) path cs ((real, plain), h) r =
    joined-Reads stack (c ++ (if path == [] then [] else slash ∷ path)) (c ∷ cs) h
      (one_more c path cs real plain r)

onto-append : (xs ys cs : List Str) → onto (xs ++ ys) cs ≡ onto ys (onto xs cs)
unfolding onto
onto-append [] ys cs = refl
onto-append (x ∷ xs) ys cs = onto-append xs ys (x ∷ cs)

onto-All {ℓ} : (P : Str → Type ℓ) (xs cs : List Str) → All P xs → All P cs → All P (onto xs cs)
unfolding onto
onto-All P [] cs h hc = hc
onto-All P (x ∷ xs) cs (hx, h) hc = onto-All P xs (x ∷ cs) h (hx, hc)

-- The steps up come first.
onto-ups :
    (u : Str) (ups cs : List Str)
    → All (λ c. c ≡ codes "..") (u ∷ ups)
    → (rest : List Str) × (onto (u ∷ ups) cs ≡ codes ".." ∷ rest)
unfolding onto
onto-ups u [] cs (hu, h) = (cs, ap (λ c. c ∷ cs) hu)
onto-ups u (v ∷ ups) cs (hu, h) = onto-ups v ups (u ∷ cs) h

same_first : (a b : Str) (xs ys : List Str) → ◌≡◌ {A = List Str} (a ∷ xs) (b ∷ ys) → a ≡ b
same_first a b xs ys h = cc

real_names :
    (names : List Str) → All (λ c. IsName c × Plain c) names → All (λ c. (c ≢ []) × Plain c) names
real_names [] h = tt
real_names (n ∷ names) ((name, plain), h) = ((name.0, plain), real_names names h)

only_names : (names : List Str) → All (λ c. IsName c × Plain c) names → All IsName names
only_names [] h = tt
only_names (n ∷ names) ((name, plain), h) = (name, only_names names h)

up_real : (codes ".." ≢ []) × Plain (codes "..")
up_real = (λ p. cc, omega arith)

real_ups : (ups : List Str) → All (λ c. c ≡ codes "..") ups → All (λ c. (c ≢ []) × Plain c) ups
real_ups [] h = tt
real_ups (u ∷ ups) (hu, h) = (subst (λ c. (c ≢ []) × Plain c) (sym hu) up_real, real_ups ups h)

below : (a b : Str) → a ++ slash ∷ b ≢ []
below [] b h = cc
below (c ∷ a) b h = cc

-- The components of a path that starts with a component other than the step up, and goes on below it.
module _ (path first rest : Str) (plain : Plain first) (down : first ≢ codes "..")
    (starts : path ≡ first ++ slash ∷ rest) where
  first_split : split_on slash path ≡ first ∷ split_on slash rest
  first_split = ap (split_on slash) starts ∙ split_on-append first rest plain

  no_ups :
      (names ups : List Str)
      → All (λ c. IsName c × Plain c) names
      → All (λ c. c ≡ codes "..") ups
      → split_on slash path ≡ onto ups (onto names [])
      → All IsName (split_on slash path)
  unfolding onto
  no_ups names [] n u h =
      subst (All IsName) (sym h) (onto-All IsName names [] (only_names names n) tt)
  no_ups names (up ∷ ups) n u h =
      let (others, e) = onto-ups up ups (onto names []) u in
      absurd (down (same_first first (codes "..") _ _ (sym first_split ∙ h ∙ e)))

  joined-IsName :
      (stack : List Str)
      → Stack stack
      → path ≡ Paths.joined stack []
      → All IsName (split_on slash path)
  joined-IsName stack (names, ups, split, n, u) joins =
      let real = All-append _ names ups (real_names names n) (real_ups ups u) in
      let whole = subst (All (λ c. (c ≢ []) × Plain c)) (sym split) real in
      elim (joined-Reads stack [] [] whole (inl (refl, refl))) [
        | inl (p, q) ↦ absurd (below first rest (sym starts ∙ joins ∙ p))
        | inr (p, q) ↦
            no_ups names ups n u (
              ap (split_on slash) joins
              ∙ q
              ∙ ap (λ st. onto st []) split
              ∙ onto-append names ups [])
      ]

same_char : (a b : ℕ) (s t : Str) → ◌≡◌ {A = Str} (a ∷ s) (b ∷ t) → a ≡ b
same_char a b s t h = cc

rooted_apart :
    (c : ℕ) (first rest path : Str)
    → c ≢ slash
    → ◌≢◌ {A = Str} (slash ∷ path) ((c ∷ first) ++ slash ∷ rest)
rooted_apart c first rest path h p = h (sym (same_char slash c path (first ++ slash ∷ rest) p))

dot_apart : (c : ℕ) (first rest : Str) → ◌≢◌ {A = Str} (codes ".") ((c ∷ first) ++ slash ∷ rest)
dot_apart c [] rest p = cc
dot_apart c (d ∷ first) rest p = cc

-- A cleaned path that starts with a component other than the step up, and goes on below it, has only names
-- as its components.
pub clean-IsName :
    (s : Str) (c : ℕ) (first rest : Str)
    → Plain (c ∷ first)
    → ◌≢◌ {A = Str} (c ∷ first) (codes "..")
    → clean s ≡ (c ∷ first) ++ slash ∷ rest
    → All IsName (split_on slash (clean s))
unfolding clean
clean-IsName s c first rest plain down h = elim (Bool-cases (has_prefix s (codes "/"))) [
  | inl rooted ↦ absurd (rooted_apart c first rest _ plain.0 (rw rooted at h))
  | inr relative ↦
      let stack = Paths.clean_all false (split_on slash s) [] in
      let path = Paths.joined stack [] in
      elim (Bool-cases (path == [])) [
        | inl empty ↦ absurd (dot_apart c first rest (rw (relative, empty) at h))
        | inr full ↦
            rw (relative, full)
              (joined-IsName path (c ∷ first) rest plain down (rw (relative, full) at h) stack
                (clean_all-Stack (split_on slash s) [] (split_on-Plain s) ([], [], refl, tt, tt))
                refl)
      ]
]
