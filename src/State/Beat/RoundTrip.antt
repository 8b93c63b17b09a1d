-- ===== src/State/Beat/RoundTrip.antt =====
-- A beat that is saved is the one that is loaded, and a save that fails changes nothing that is loaded.
use rdda.Common.{Option, none, some, Str, ◌≡◌, refl, Option-cases, inl, inr}
use rdda.Common.Results.{Result, ok, Result-cases}
use rdda.State.Beat.{RuHealth, BeatFiles, BeatEnv, save_ru_health, load_ru_health}

module _ {Text : Type 0} (e : BeatEnv Text) (marshal : RuHealth → Result Str Text)
    (unmarshal : Text → Result Str RuHealth) (h : RuHealth) (files : BeatFiles Text) where
  abbrev load : BeatFiles Text → Result Str (Option RuHealth)
  load = load_ru_health unmarshal

  abbrev pub SavedOrKept : Option Str × BeatFiles Text → Type 0
  SavedOrKept (none, after) = load after ≡ ok (some h)
  SavedOrKept (some x, after) = load after ≡ load files

  -- Where the parser reads back what the printer prints, SaveRUHealth either succeeds, and LoadRUHealth
  -- then gives the beat that was saved, or fails, and LoadRUHealth gives what it gave before.
  pub load_ru_health-save_ru_health :
      ((t : Text) → marshal h ≡ ok t → unmarshal t ≡ ok h)
      → SavedOrKept (save_ru_health e marshal h files)
  unfolding save_ru_health load_ru_health
  load_ru_health-save_ru_health codec = elim (Result-cases (marshal h)) [
    | inr (x, p) ↦ rw p refl
    | inl (t, p) ↦ elim (Option-cases e.write) [
      | inr (x, q) ↦ rw (p, q) refl
      | inl q ↦ elim (Option-cases e.rename) [
        | inr (x, r) ↦ rw (p, q, r) refl
        | inl r ↦ rw (p, q, r, codec t p) refl
      ]
    ]
  ]
