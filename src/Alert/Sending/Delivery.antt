-- ===== src/Alert/Sending/Delivery.antt =====
-- The lists of a run against its mailer: a key is listed as fired or resolved only if its mail was taken.
use mathlib.Core.Path.{subst}
use rdda.Common.{
  append_assoc, true, List, [], ◌∷◌, ◌++◌, Option, none, some, Str, ◌==◌, ◌≡◌, refl, ◌∙◌, ap,
  str_instance, is_some, eq_iff, Bool-cases, inl, inr, arith,
}
use rdda.Common.Assoc.{lookup, mem, mem-append}
use rdda.Alert.Sending
use rdda.Alert.Sending.{
  Mail, Mailer, Messages, Round, at, fire_sent, fire_key, fire, resolve_sent, resolve_key, resolve,
  sorted_keys, fresh_round, exchange,
}

-- The mailer took this mail, one of those attempted.
abbrev pub Delivered : Mailer → List Mail → Mail → Type 0
Delivered mailer mails m =
    (before after : List Mail) × (mails ≡ before ++ (m ∷ after)) × (mailer before m ≡ none)

Delivered-append :
    (mailer : Mailer) (mails : List Mail) (m n : Mail)
    → Delivered mailer mails m
    → Delivered mailer (mails ++ n ∷ []) m
Delivered-append mailer mails m n (before, after, split, taken) = (
  before,
  after ++ n ∷ [],
  ap (λ ms. ms ++ n ∷ []) split ∙ append_assoc before (m ∷ after) (n ∷ []),
  taken,
)

module _ (mailer : Mailer) (mail : Str → Mail) where
  -- Every key of the list has had its mail taken.
  abbrev pub Listed : List Str → List Mail → Type 0
  Listed ks mails = (j : Str) → mem j ks ≡ true → Delivered mailer mails (mail j)

  Listed-mails :
      (ks : List Str) (mails : List Mail) (n : Mail) → Listed ks mails → Listed ks (mails ++ n ∷ [])
  Listed-mails ks mails n h j m = Delivered-append mailer mails (mail j) n (h j m)

  Listed-taken :
      (ks : List Str) (mails : List Mail) (k : Str)
      → mailer mails (mail k) ≡ none
      → Listed ks mails
      → Listed (ks ++ k ∷ []) (mails ++ mail k ∷ [])
  unfolding mem
  Listed-taken ks mails k taken h j m = elim (Bool-cases (mem j ks)) [
    | inl was ↦ Delivered-append mailer mails (mail j) (mail k) (h j was)
    | inr new ↦
        let same : (k == j) ≡ true = ground (arith, mem-append j ks (k ∷ [])) in
        subst (λ i. Delivered mailer (mails ++ mail k ∷ []) (mail i)) ((eq_iff k j).0 same)
          (mails, [], refl, taken)
  ]

module _ (mailer : Mailer) (current last : Messages) where
  abbrev pub fired_mail : Str → Mail
  fired_mail k = Sending.alert_mail (at current k)

  abbrev pub past_mail : Str → Mail
  past_mail k = Sending.resolved_mail (at last k)

  -- Both lists are honest.
  abbrev pub Honest : Round → Type 0
  Honest r = Listed mailer fired_mail r.fired r.mails × Listed mailer past_mail r.resolved r.mails

  fire_sent-Honest :
      (k : Str) (answer : Option Str) (r : Round)
      → mailer r.mails (fired_mail k) ≡ answer
      → Honest r
      → Honest
          (fire_sent k (at current k) answer (record r { mails = r.mails ++ fired_mail k ∷ [] }))
  fire_sent-Honest k none r taken (f, p) = (
    Listed-taken mailer fired_mail r.fired r.mails k taken f,
    Listed-mails mailer past_mail r.resolved r.mails (fired_mail k) p,
  )
  fire_sent-Honest k (some e) r refused (f, p) = (
    Listed-mails mailer fired_mail r.fired r.mails (fired_mail k) f,
    Listed-mails mailer past_mail r.resolved r.mails (fired_mail k) p,
  )

  resolve_sent-Honest :
      (k : Str) (answer : Option Str) (r : Round)
      → mailer r.mails (past_mail k) ≡ answer
      → Honest r
      → Honest
          (resolve_sent k (at last k) answer (record r { mails = r.mails ++ past_mail k ∷ [] }))
  resolve_sent-Honest k none r taken (f, p) = (
    Listed-mails mailer fired_mail r.fired r.mails (past_mail k) f,
    Listed-taken mailer past_mail r.resolved r.mails k taken p,
  )
  resolve_sent-Honest k (some e) r refused (f, p) = (
    Listed-mails mailer fired_mail r.fired r.mails (past_mail k) f,
    Listed-mails mailer past_mail r.resolved r.mails (past_mail k) p,
  )

  fire-Honest : (ks : List Str) (r : Round) → Honest r → Honest (fire mailer current last ks r)
  unfolding fire fire_key
  fire-Honest [] r h = h
  fire-Honest (k ∷ ks) r h =
      fire-Honest ks (fire_key mailer current last k r)
        (elim (Bool-cases (is_some (lookup k last))) [
          | inl was ↦ rw was h
          | inr new ↦ rw new (fire_sent-Honest k (mailer r.mails (fired_mail k)) r refl h)
        ])

  resolve-Honest :
      (ks : List Str) (r : Round) → Honest r → Honest (resolve mailer current last ks r)
  unfolding resolve resolve_key
  resolve-Honest [] r h = h
  resolve-Honest (k ∷ ks) r h =
      resolve-Honest ks (resolve_key mailer current last k r)
        (elim (Bool-cases (is_some (lookup k current))) [
          | inl still ↦ rw still h
          | inr gone ↦ rw gone (resolve_sent-Honest k (mailer r.mails (past_mail k)) r refl h)
        ])

  pub exchange-Honest : Honest (exchange mailer current last)
  unfolding exchange mem
  exchange-Honest =
      resolve-Honest (sorted_keys last) (fire mailer current last (sorted_keys current) fresh_round)
        (fire-Honest (sorted_keys current) fresh_round ((λ j m. cc), (λ j m. cc)))
