-- ===== src/Tunnelprobe/Probing/Attempts.antt =====
-- What a reading of the probe says about the tries that it made.
use mathlib.Core.Path.{subst}
use rdda.Common.{
  ℕ, Bool, true, false, List, [], ◌∷◌, ◌++◌, Option, none, some, Str, codes, ◌≡◌, refl, ap,
  Bool-cases, inl, inr, ◌⊎◌, All,
}
use rdda.Common.Format.{decimal}
use rdda.Common.Results.{Result, ok, err, Result-cases}
use rdda.Health.{reach_ok, reach_blocked, reach_unknown, ProbeResult}
use rdda.Json.{Json}
use rdda.Tunnelprobe.Probing
use rdda.Tunnelprobe.Probing.{
  Fetch, no_answer, answer, is_through, Env, ready, outcomes, tries, probe,
}

-- A fetch that proves the path: an answer below 500 that is no informational one.
abbrev pub through : Fetch → Bool
through (no_answer x) = false
through (answer status latency) = is_through status

-- The first try that got through, after those that did not.
abbrev pub FirstThrough : List Fetch → ℕ → Type 0
FirstThrough fs latency =
    (before after : List Fetch) × (status : ℕ) × (fs ≡ before ++ (answer status latency ∷ after))
    × (is_through status ≡ true)
    × All (λ f. through f ≡ false) before

-- The reading of a loop over these fetches.
abbrev pub Reading : List Fetch → ProbeResult → Type 0
Reading fs r =
    ((r.status ≡ reach_ok) × FirstThrough fs r.latency_ns)
    ⊎ ((r.status ≡ reach_blocked) × All (λ f. through f ≡ false) fs)

later :
    (f : Fetch) (fs : List Fetch) (r : ProbeResult)
    → through f ≡ false
    → Reading fs r
    → Reading (f ∷ fs) r
later f fs r h (inr (b, none_through)) = inr (b, (h, none_through))
later f fs r h (inl (o, (before, after, status, split, good, bad))) =
    inl (o, (f ∷ before, after, status, ap (λ xs. f ∷ xs) split, good, (h, bad)))

attempts-Reading :
    (show : ℕ → Str) (fs : List Fetch) (last : Option Str)
    → Reading fs (Probing.attempts show fs last)
unfolding Probing.attempts Probing.blocked
attempts-Reading show [] none = inr (refl, tt)
attempts-Reading show [] (some x) = inr (refl, tt)
attempts-Reading show (no_answer x ∷ fs) last =
    later (no_answer x) fs (Probing.attempts show fs (some x)) refl
      (attempts-Reading show fs (some x))
attempts-Reading show (answer status latency ∷ fs) last = elim (Bool-cases (is_through status)) [
  | inl good ↦ rw good (inl (refl, ([], fs, status, refl, good, tt)))
  | inr bad ↦
      let next = some (codes "status " ++ decimal status) in
      let same : Probing.attempts show fs next
          ≡ Probing.attempts show (answer status latency ∷ fs) last =
        rw bad refl in
      subst (λ r. Reading (answer status latency ∷ fs) r) same
        (later (answer status latency) fs (Probing.attempts show fs next) bad
          (attempts-Reading show fs next))
]

abbrev pub Sensed :
    Env
    → (Str → Result Str Str)
    → (Json → Result Str Str)
    → Result Str Json
    → (ℕ → Fetch)
    → ProbeResult
    → Type 0
Sensed e public_from_private print parsed fetch r =
    ((x : Str) × (ready e public_from_private print parsed ≡ err x)
      × (r.status ≡ reach_unknown)
      × (r.detail ≡ x))
    ⊎ ((ready e public_from_private print parsed ≡ ok tt) × Reading (outcomes fetch 0 tries) r)

-- A reading is unknown, with the cause, where the probe could not start; otherwise it is ok, with the
-- latency of the first of the twelve tries that got through, or blocked, and then none of the twelve did.
pub probe-Sensed :
    (e : Env) (public_from_private : Str → Result Str Str) (print : Json → Result Str Str)
    (show : ℕ → Str) (parsed : Result Str Json) (fetch : ℕ → Fetch)
    → Sensed e public_from_private print parsed fetch
        (probe e public_from_private print show parsed fetch)
unfolding probe Probing.started Probing.unknown
probe-Sensed e public_from_private print show parsed fetch =
    elim (Result-cases (ready e public_from_private print parsed)) [
      | inr (x, p) ↦ rw p (inl (x, refl, refl, refl))
      | inl (u, p) ↦ rw p (inr (refl, attempts-Reading show (outcomes fetch 0 tries) none))
    ]
