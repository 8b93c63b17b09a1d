-- ===== src/Heal/Trace.antt =====
-- Which commands a healing pass runs, by what they answer. The world is that of the runner, with the
-- commands run so far and their outputs.
use mathlib.Core.Path.{subst}
use rdda.Common.{
  true, false, List, [], ◌∷◌, ◌++◌, Option, none, some, Str, codes, ◌==◌, str_instance, ◌≡◌, refl,
  sym, ◌∙◌, ap, Bool-cases, inl, inr, append-nil, append_assoc,
}
use rdda.Health.{Output, Runner, systemctl}
use rdda.Heal
use rdda.Heal.{Pass, first_error, heal, heal_unit, heal_units, restart_unit}

-- The runner that keeps a log, in the order of the commands.
abbrev pub Log : Type 0
Log = List (List Str × Output)

abbrev pub logging : {W : Type 0} → Runner W → Runner (W × Log)
logging run cmd (w, log) = let (out, w') = run cmd w in (out, (w', log ++ (cmd, out) ∷ []))

-- The block of commands for a unit that was asked for: the question alone, or the two that restart it after
-- the answer "failed".
pub data Healing : List Str → Log → List Str → List (Str × Str) → Type 0 where
  done : Healing [] [] [] []
  left_alone :
      {u : Str} {us : List Str} {log : Log} {healed : List Str} {failures : List (Str × Str)}
      (asked : Output)
      → (asked.text == codes "failed") ≡ false
      → Healing us log healed failures
      → Healing (u ∷ us) ((systemctl (codes "is-failed") u, asked) ∷ log) healed failures
  restarted :
      {u : Str} {us : List Str} {log : Log} {healed : List Str} {failures : List (Str × Str)}
      (asked reset answer : Output)
      → (asked.text == codes "failed") ≡ true
      → answer.failure ≡ none
      → Healing us log healed failures
      → Healing
          (u ∷ us)
          ((systemctl (codes "is-failed") u, asked)
            ∷ (systemctl (codes "reset-failed") u, reset)
            ∷ (systemctl (codes "restart") u, answer)
            ∷ log)
          (u ∷ healed)
          failures
  not_restarted :
      {u : Str} {us : List Str} {log : Log} {healed : List Str} {failures : List (Str × Str)}
      (asked reset answer : Output) (x : Str)
      → (asked.text == codes "failed") ≡ true
      → answer.failure ≡ some x
      → Healing us log healed failures
      → Healing
          (u ∷ us)
          ((systemctl (codes "is-failed") u, asked)
            ∷ (systemctl (codes "reset-failed") u, reset)
            ∷ (systemctl (codes "restart") u, answer)
            ∷ log)
          healed
          ((u, x) ∷ failures)

-- The error that a pass reports: that of the first restart that failed.
abbrev pub first : List (Str × Str) → Option (Str × Str)
first [] = none
first (f ∷ fs) = some f

abbrev pub or_else : Option (Str × Str) → List (Str × Str) → Option (Str × Str)
or_else none fs = first fs
or_else (some f) fs = some f

or_else-nothing : (o : Option (Str × Str)) → o ≡ or_else o []
or_else-nothing none = refl
or_else-nothing (some f) = refl

or_else-append :
    (o : Option (Str × Str)) (fs gs : List (Str × Str))
    → or_else (or_else o fs) gs ≡ or_else o (fs ++ gs)
or_else-append none [] gs = refl
or_else-append none (f ∷ fs) gs = refl
or_else-append (some f) fs gs = refl

first_error-or_else :
    (o : Option (Str × Str)) (f : Str × Str) → first_error o f ≡ or_else o (f ∷ [])
first_error-or_else none f = refl
first_error-or_else (some g) f = refl

module _ {W : Type 0} (run : Runner W) where
  -- What a pass has added to a pass p.
  abbrev Added : Log → List Str → List (Str × Str) → Pass (W × Log) → Pass (W × Log) → Type 0
  Added log healed failures p q =
      (q.world.1 ≡ p.world.1 ++ log)
      × (q.healed ≡ p.healed ++ healed)
      × (q.failure ≡ or_else p.failure failures)

  -- The block of one unit, before those of the units after it.
  abbrev Block : Str → Pass (W × Log) → Pass (W × Log) → Type 0
  Block u p q =
      (log : Log) × (healed : List Str) × (failures : List (Str × Str)) × ((us : List Str)
          (log' : Log) (healed' : List Str) (failures' : List (Str × Str))
        → Healing us log' healed' failures'
        → Healing (u ∷ us) (log ++ log') (healed ++ healed') (failures ++ failures'))
      × Added log healed failures p q

  -- The block of a restart, whose outcome is recorded in q.
  recorded :
      (u : Str) (p q : Pass (W × Log)) (asked reset answer : Output) (failure : Option Str)
      → (asked.text == codes "failed") ≡ true
      → answer.failure ≡ failure
      → q.world.1
        ≡ p.world.1
          ++ ((systemctl (codes "is-failed") u, asked)
              ∷ (systemctl (codes "reset-failed") u, reset)
              ∷ (systemctl (codes "restart") u, answer)
              ∷ [])
      → q.healed ≡ p.healed
      → q.failure ≡ p.failure
      → Block u p (Heal.record_restart (logging run) u failure q)
  recorded u p q asked reset answer none found fine logged same_healed same_failure = (
    (systemctl (codes "is-failed") u, asked)
        ∷ (systemctl (codes "reset-failed") u, reset)
        ∷ (systemctl (codes "restart") u, answer)
        ∷ [],
    u ∷ [],
    [],
    λ us l hs fs h. restarted asked reset answer found fine h,
    (logged, ap (λ hs. hs ++ u ∷ []) same_healed, same_failure ∙ or_else-nothing p.failure),
  )
  recorded u p q asked reset answer (some x) found bad logged same_healed same_failure = (
    (systemctl (codes "is-failed") u, asked)
        ∷ (systemctl (codes "reset-failed") u, reset)
        ∷ (systemctl (codes "restart") u, answer)
        ∷ [],
    [],
    (u, x) ∷ [],
    λ us l hs fs h. not_restarted asked reset answer x found bad h,
    (
      logged,
      same_healed ∙ sym (append-nil p.healed),
      ap (λ o. first_error o (u, x)) same_failure ∙ first_error-or_else p.failure (u, x),
    ),
  )

  heal_unit-Block : (u : Str) (p : Pass (W × Log)) → Block u p (heal_unit (logging run) u p)
  unfolding heal_unit restart_unit
  heal_unit-Block u p =
      let (asked, w1) = run (systemctl (codes "is-failed") u) p.world.0 in
      let (reset, w2) = run (systemctl (codes "reset-failed") u) w1 in
      let (answer, w3) = run (systemctl (codes "restart") u) w2 in
      let question : List Str × Output = (systemctl (codes "is-failed") u, asked) in
      let second : List Str × Output = (systemctl (codes "reset-failed") u, reset) in
      let third : List Str × Output = (systemctl (codes "restart") u, answer) in
      let logged : ((p.world.1 ++ question ∷ []) ++ second ∷ []) ++ third ∷ []
          ≡ p.world.1 ++ (question ∷ second ∷ third ∷ []) =
        append_assoc (p.world.1 ++ question ∷ []) (second ∷ []) (third ∷ [])
        ∙ append_assoc p.world.1 (question ∷ []) (second ∷ third ∷ []) in
      elim (Bool-cases (asked.text == codes "failed")) [
        | inr other ↦ rw other (
          question ∷ [],
          [],
          [],
          λ us l hs fs h. left_alone asked other h,
          (refl, sym (append-nil p.healed), or_else-nothing p.failure),
        )
        | inl found ↦ rw found (
            recorded u p (record { world = (w3, _); healed = p.healed; failure = p.failure }) asked
              reset answer answer.failure found refl logged refl refl)
      ]

  abbrev Healed : List Str → Pass (W × Log) → Pass (W × Log) → Type 0
  Healed us p q =
      (log : Log) × (healed : List Str) × (failures : List (Str × Str)) × Healing us log healed
        failures
      × Added log healed failures p q

  heal_units-Healed :
      (us : List Str) (p : Pass (W × Log)) → Healed us p (heal_units (logging run) us p)
  unfolding heal_units
  heal_units-Healed [] p = (
    [],
    [],
    [],
    done,
    (sym (append-nil p.world.1), sym (append-nil p.healed), or_else-nothing p.failure),
  )
  heal_units-Healed (u ∷ us) p =
      let (l1, h1, f1, extend, (logged1, listed1, failed1)) = heal_unit-Block u p in
      let (l2, h2, f2, rest, (logged2, listed2, failed2)) =
        heal_units-Healed us (heal_unit (logging run) u p) in
      (
        l1 ++ l2,
        h1 ++ h2,
        f1 ++ f2,
        extend us l2 h2 f2 rest,
        (
          logged2 ∙ ap (λ l. l ++ l2) logged1 ∙ append_assoc p.world.1 l1 l2,
          listed2 ∙ ap (λ h. h ++ h2) listed1 ∙ append_assoc p.healed h1 h2,
          failed2 ∙ ap (λ o. or_else o f2) failed1 ∙ or_else-append p.failure f1 f2,
        ),
      )

  -- Whatever the commands answer, a pass asks for each of its units in order, and resets and restarts right
  -- then exactly those whose answer is "failed"; it reports as healed, in order, the units whose restart
  -- succeeded, and as its error that of the first restart that failed, and goes on after it.
  pub heal-Healing :
      (units : List Str) (w : W)
      → let q = heal (logging run) units (w, []) in
        (failures : List (Str × Str)) × Healing units q.world.1 q.healed failures
        × (q.failure ≡ first failures)
  unfolding heal
  heal-Healing units w =
      let (log, healed, failures, h, (logged, listed, failed)) =
        heal_units-Healed units (record { world = (w, []); healed = []; failure = none }) in
      (
        failures,
        subst (λ l. Healing units l (heal (logging run) units (w, [])).healed failures) (sym logged)
            (subst (λ hs. Healing units log hs failures) (sym listed) h),
        failed,
      )
