-- ===== src/Alert/Sending/Firing.antt =====
-- The loop over the current conditions: a key that is not firing yet is mailed.
use mathlib.Core.Path.{subst}
use rdda.Common.{
  true, false, List, [], ◌∷◌, ◌++◌, Option, none, some, Str, codes, ◌==◌, ◌||◌, ◌≡◌, refl, ◌∙◌,
  str_instance, if◌then◌else◌, is_some, arith, eq_iff, Bool-cases, inl, inr,
}
use rdda.Common.Assoc.{lookup, mem, mem-append, lookup-insert, Unique}
use rdda.Alert.Sending.{Mail, Mailer, Messages, Round, at, fire_sent, fire_key, fire}

fire_sent-other :
    (k j msg : Str) (o : Option Str) (r : Round)
    → (k == j) ≡ false
    → (lookup j (fire_sent k msg o r).new_set ≡ lookup j r.new_set)
      × (mem j (fire_sent k msg o r).fired ≡ mem j r.fired)
unfolding mem
fire_sent-other k j msg none r h =
    ground (arith, lookup-insert k j msg r.new_set, mem-append j r.fired (k ∷ []))
fire_sent-other k j msg (some e) r h = (refl, refl)

fire_key-other :
    (mailer : Mailer) (current last : Messages) (k j : Str) (r : Round)
    → (k == j) ≡ false
    → (lookup j (fire_key mailer current last k r).new_set ≡ lookup j r.new_set)
      × (mem j (fire_key mailer current last k r).fired ≡ mem j r.fired)
unfolding fire_key
fire_key-other mailer current last k j r h =
    let msg = at current k in
    let mail : Mail = record { subject = codes "[RDDA ALERT] " ++ msg; body = msg } in
    elim (Bool-cases (is_some (lookup k last))) [
      | inl was ↦ rw was (ground (arith, lookup-insert k j msg r.new_set))
      | inr fresh ↦ rw fresh (
          fire_sent-other k j msg (mailer r.mails mail) (record r { mails = r.mails ++ mail ∷ [] })
            h)
    ]

-- What a key of the current conditions leaves behind: it is kept if it was firing or has been mailed.
abbrev pub Fired : Messages → Messages → Str → Round → Type 0
Fired current last k r =
    (lookup k r.new_set
      ≡ (if is_some (lookup k last) || mem k r.fired then some (at current k) else none))
    × (mem k r.fired ≡ true → is_some (lookup k last) ≡ false)

fire_key_self :
    (mailer : Mailer) (current last : Messages) (k : Str) (r : Round)
    → mem k r.fired ≡ false
    → lookup k r.new_set ≡ none
    → Fired current last k (fire_key mailer current last k r)
unfolding fire_key mem
fire_key_self mailer current last k r f n =
    ground
      (arith, lookup-insert k k (at current k) r.new_set, eq_iff k k, mem-append k r.fired (k ∷ []))

Fired-after :
    (current last : Messages) (k : Str) (r s : Round)
    → (lookup k s.new_set ≡ lookup k r.new_set) × (mem k s.fired ≡ mem k r.fired)
    → Fired current last k r
    → Fired current last k s
Fired-after current last k r s (e, f) h = ground arith

pub fire-other :
    (mailer : Mailer) (current last : Messages) (ks : List Str) (j : Str) (r : Round)
    → mem j ks ≡ false
    → (lookup j (fire mailer current last ks r).new_set ≡ lookup j r.new_set)
      × (mem j (fire mailer current last ks r).fired ≡ mem j r.fired)
unfolding fire mem
fire-other mailer current last [] j r h = (refl, refl)
fire-other mailer current last (k ∷ ks) j r h =
    let r' = fire_key mailer current last k r in
    ground (arith, fire-other mailer current last ks j r', fire_key-other mailer current last k j r)

pub fire_self :
    (mailer : Mailer) (current last : Messages) (ks : List Str) (j : Str) (r : Round)
    → Unique ks
    → mem j ks ≡ true
    → mem j r.fired ≡ false
    → lookup j r.new_set ≡ none
    → Fired current last j (fire mailer current last ks r)
unfolding fire mem
fire_self mailer current last [] j r u m f n = cc
fire_self mailer current last (k ∷ ks) j r (fresh, u) m f n = elim (Bool-cases (k == j)) [
  | inl same ↦
      let r' = fire_key mailer current last k r in
      let p : k ≡ j = (eq_iff k j).0 same in
      subst (λ x. Fired current last x (fire mailer current last ks r')) p
        (Fired-after current last k r' (fire mailer current last ks r')
          (fire-other mailer current last ks k r' fresh)
          (fire_key_self mailer current last k r (rw p f) (rw p n)))
  | inr other ↦
      let r' = fire_key mailer current last k r in
      let (kept, kept_fired) = fire_key-other mailer current last k j r other in
      fire_self mailer current last ks j r' u (ground arith) (kept_fired ∙ f) (kept ∙ n)
]

-- The firing loop leaves the list of resolved keys alone.
pub fire-resolved :
    (mailer : Mailer) (current last : Messages) (ks : List Str) (r : Round)
    → (fire mailer current last ks r).resolved ≡ r.resolved
unfolding fire fire_key
fire-resolved mailer current last [] r = refl
fire-resolved mailer current last (k ∷ ks) r =
    ground (arith, fire-resolved mailer current last ks (fire_key mailer current last k r))
