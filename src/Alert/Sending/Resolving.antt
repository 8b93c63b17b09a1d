-- ===== src/Alert/Sending/Resolving.antt =====
-- The loop over the last set: a key that no longer holds is mailed as resolved.
use mathlib.Core.Path.{subst}
use rdda.Common.{
  true, false, List, [], ◌∷◌, ◌++◌, Option, none, some, Str, codes, ◌==◌, ◌||◌, ◌≡◌, refl, ◌∙◌,
  str_instance, if◌then◌else◌, is_some, arith, eq_iff, Bool-cases, inl, inr,
}
use rdda.Common.Assoc.{lookup, mem, mem-append, lookup-insert, Unique}
use rdda.Alert.Sending.{Mail, Mailer, Messages, Round, at, resolve_sent, resolve_key, resolve}

-- What a key that was firing leaves behind: it is kept only if its notice could not be sent.
abbrev pub Resolved : Messages → Messages → Str → Round → Round → Type 0
Resolved current last k r s =
    (lookup k s.new_set ≡ (
      if is_some (lookup k current) || mem k s.resolved
      then lookup k r.new_set
      else some (at last k)))
    × (mem k s.resolved ≡ true → is_some (lookup k current) ≡ false)

resolve_sent-other :
    (k j msg : Str) (o : Option Str) (r : Round)
    → (k == j) ≡ false
    → (lookup j (resolve_sent k msg o r).new_set ≡ lookup j r.new_set)
      × (mem j (resolve_sent k msg o r).resolved ≡ mem j r.resolved)
unfolding mem
resolve_sent-other k j msg none r h = ground (arith, mem-append j r.resolved (k ∷ []))
resolve_sent-other k j msg (some e) r h = ground (arith, lookup-insert k j msg r.new_set)

resolve_key-other :
    (mailer : Mailer) (current last : Messages) (k j : Str) (r : Round)
    → (k == j) ≡ false
    → (lookup j (resolve_key mailer current last k r).new_set ≡ lookup j r.new_set)
      × (mem j (resolve_key mailer current last k r).resolved ≡ mem j r.resolved)
unfolding resolve_key
resolve_key-other mailer current last k j r h =
    let msg = at last k in
    let mail : Mail = record { subject = codes "[RDDA RESOLVED] " ++ msg; body = msg } in
    elim (Bool-cases (is_some (lookup k current))) [
      | inl still ↦ rw still (refl, refl)
      | inr gone ↦ rw gone (
          resolve_sent-other k j msg (mailer r.mails mail)
            (record r { mails = r.mails ++ mail ∷ [] }) h)
    ]

resolve_key_self :
    (mailer : Mailer) (current last : Messages) (k : Str) (r : Round)
    → mem k r.resolved ≡ false
    → Resolved current last k r (resolve_key mailer current last k r)
unfolding resolve_key mem
resolve_key_self mailer current last k r f =
    ground
      (arith, lookup-insert k k (at last k) r.new_set, eq_iff k k, mem-append k r.resolved (k ∷ []))

pub resolve-other :
    (mailer : Mailer) (current last : Messages) (ks : List Str) (j : Str) (r : Round)
    → mem j ks ≡ false
    → (lookup j (resolve mailer current last ks r).new_set ≡ lookup j r.new_set)
      × (mem j (resolve mailer current last ks r).resolved ≡ mem j r.resolved)
unfolding resolve mem
resolve-other mailer current last [] j r h = (refl, refl)
resolve-other mailer current last (k ∷ ks) j r h =
    let r' = resolve_key mailer current last k r in
    ground (
      arith,
      resolve-other mailer current last ks j r',
      resolve_key-other mailer current last k j r,
    )

Resolved-after :
    (current last : Messages) (k : Str) (q r s : Round)
    → (lookup k s.new_set ≡ lookup k r.new_set) × (mem k s.resolved ≡ mem k r.resolved)
    → Resolved current last k q r
    → Resolved current last k q s
Resolved-after current last k q r s (e, f) h = ground arith

Resolved-before :
    (current last : Messages) (k : Str) (q r s : Round)
    → lookup k r.new_set ≡ lookup k q.new_set
    → Resolved current last k r s
    → Resolved current last k q s
Resolved-before current last k q r s e h = ground arith

pub resolve_self :
    (mailer : Mailer) (current last : Messages) (ks : List Str) (j : Str) (r : Round)
    → Unique ks
    → mem j ks ≡ true
    → mem j r.resolved ≡ false
    → Resolved current last j r (resolve mailer current last ks r)
unfolding resolve mem
resolve_self mailer current last [] j r u m f = cc
resolve_self mailer current last (k ∷ ks) j r (fresh, u) m f = elim (Bool-cases (k == j)) [
  | inl same ↦
      let r' = resolve_key mailer current last k r in
      let p : k ≡ j = (eq_iff k j).0 same in
      subst (λ x. Resolved current last x r (resolve mailer current last ks r')) p
        (Resolved-after current last k r r' (resolve mailer current last ks r')
          (resolve-other mailer current last ks k r' fresh)
          (resolve_key_self mailer current last k r (rw p f)))
  | inr other ↦
      let r' = resolve_key mailer current last k r in
      let (kept, kept_resolved) = resolve_key-other mailer current last k j r other in
      Resolved-before current last j r r' (resolve mailer current last ks r') kept
        (resolve_self mailer current last ks j r' u (ground arith) (kept_resolved ∙ f))
]

pub resolve-fired :
    (mailer : Mailer) (current last : Messages) (ks : List Str) (r : Round)
    → (resolve mailer current last ks r).fired ≡ r.fired
unfolding resolve resolve_key
resolve-fired mailer current last [] r = refl
resolve-fired mailer current last (k ∷ ks) r =
    ground (arith, resolve-fired mailer current last ks (resolve_key mailer current last k r))
