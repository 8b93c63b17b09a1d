-- ===== src/Doctor/Perms/Readable.antt =====
-- The permissions check against its condition: the service user can read the files that are there.
use mathlib.Core.Bool.{true≢false}
use mathlib.Core.Path.{subst}
use rdda.Common.{
  none-some, some_inj, ℕ, Bool, true, false, not, List, [], ◌∷◌, Option, none, some, Str, nat_eq,
  str_instance, ◌≡◌, ◌↔◌, refl, sym, ◌∙◌, ap, Bool-cases, inl, inr, All, Option-cases,
}
use rdda.Common.Paths.{join}
use rdda.Doctor.Checks.{Check, is_fail}
use rdda.Doctor.Perms
use rdda.Doctor.Perms.{FileStat, Seams, service_user_can_read, expanded, perms_check}

abbrev pub NoFail : Check → Type 0
NoFail c = is_fail c.status ≡ false

not_inv : (b : Bool) → not b ≡ false → b ≡ true
not_inv true p = refl
not_inv false p = sym p

module _ (s : Seams) (uid gid : ℕ) where
  -- A path that is not there is no problem of its own.
  abbrev pub Readable : Str → Type 0
  Readable path =
      (f : FileStat) → s.stat_file path ≡ some f → service_user_can_read f uid gid ≡ true

  refused-Readable :
      (path : Str) → (Perms.refused (s.stat_file path) uid gid ≡ false) ↔ Readable path
  refused-Readable path = elim (Option-cases (s.stat_file path)) [
    | inl gone ↦ rw gone (λ p f q. cc, λ r. refl)
    | inr (f, there) ↦ rw there (
      λ p g q. ap (λ x. service_user_can_read x uid gid) (sym (some_inj q)) ∙ not_inv _ p,
      λ r. rw (r f refl) refl,
    )
  ]

  first_refused-Readable :
      (paths : List Str) → (Perms.first_refused s uid gid paths ≡ none) ↔ All Readable paths
  unfolding Perms.first_refused
  first_refused-Readable [] = (λ p. tt, λ p. refl)
  first_refused-Readable (path ∷ paths) =
      elim (Bool-cases (Perms.refused (s.stat_file path) uid gid)) [
        | inl b ↦ rw b (λ p. cc, λ p. absurd (true≢false (sym b ∙ (refused-Readable path).1 p.0)))
        | inr b ↦ rw b (
          λ p. ((refused-Readable path).0 b, (first_refused-Readable paths).0 p),
          λ p. (first_refused-Readable paths).1 p.1,
        )
      ]

  abbrev pub AllReadable : Str → List Str → Type 0
  AllReadable dir entries = All (λ e. All Readable (expanded s (join dir e))) entries

  first_problem-AllReadable :
      (dir : Str) (entries : List Str)
      → (Perms.first_problem s dir uid gid entries ≡ none) ↔ AllReadable dir entries
  unfolding Perms.first_problem Perms.or_else
  first_problem-AllReadable dir [] = (λ p. tt, λ p. refl)
  first_problem-AllReadable dir (e ∷ es) =
      elim (Option-cases (Perms.first_refused s uid gid (expanded s (join dir e)))) [
        | inr (path, b) ↦ rw b (
          λ p. cc,
          λ p.
              absurd
                (none-some (sym ((first_refused-Readable (expanded s (join dir e))).1 p.0) ∙ b)),
        )
        | inl b ↦ rw b (
          λ p. (
            (first_refused-Readable (expanded s (join dir e))).0 b,
            (first_problem-AllReadable dir es).0 p,
          ),
          λ p. (first_problem-AllReadable dir es).1 p.1,
        )
      ]

audit-NoFail :
    (s : Seams) (dir : Str) (entries : List Str) (user : Option (ℕ × ℕ))
    → NoFail (Perms.audit s dir entries user)
      ↔ ((uid gid : ℕ) → user ≡ some (uid, gid) → AllReadable s uid gid dir entries)
unfolding Perms.audit Perms.verdict
audit-NoFail s dir entries none = (λ p uid gid q. absurd (none-some q), λ h. refl)
audit-NoFail s dir entries (some (u, g)) =
    elim (Option-cases (Perms.first_problem s dir u g entries)) [
      | inl clear ↦ rw clear (
        λ p uid gid q.
            subst (λ w. AllReadable s w.0 w.1 dir entries) (some_inj q)
              ((first_problem-AllReadable s u g dir entries).0 clear),
        λ h. refl,
      )
      | inr (path, b) ↦ rw b (
        λ p. absurd (true≢false p),
        λ h.
            absurd
              (none-some (sym ((first_problem-AllReadable s u g dir entries).1 (h u g refl)) ∙ b)),
      )
    ]

-- The permissions check fails exactly where a file that is there cannot be read by the service user.
pub perms_check-NoFail :
    (s : Seams) (dir : Str) (entries : List Str)
    → NoFail (perms_check s dir entries)
      ↔ ((uid gid : ℕ) → s.svc_user ≡ some (uid, gid) → AllReadable s uid gid dir entries)
unfolding perms_check
perms_check-NoFail s dir entries = audit-NoFail s dir entries s.svc_user
