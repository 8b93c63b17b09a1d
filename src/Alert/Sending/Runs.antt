-- ===== src/Alert/Sending/Runs.antt =====
-- Whole runs: what is persisted, that an error-free run has settled, and that a settled run is silent.
use mathlib.Core.Path.{subst}
use rdda.Common.{
  true, List, [], ◌∷◌, none, Str, ◌==◌, ◌≡◌, refl, ◌∙◌, str_instance, is_some, arith, eq_iff,
  Bool-cases, inl, inr,
}
use rdda.Common.Assoc.{lookup, insert, mem, mem-append, Unique, Distinct, insert-Distinct}
use rdda.Alert.{Condition}
use rdda.Alert.Sending.{
  Mailer, Messages, Round, fire_key, fire, resolve_key, resolve, sorted_keys, fresh_round, exchange,
  by_key,
}
use rdda.Alert.Sending.Firing.{fire-other}
use rdda.Alert.Sending.Resolving.{resolve-other, resolve-fired}
use rdda.Alert.Sending.Transitions.{
  exchange-lookup, next_message, mem-sorted_keys, sorted_keys-Unique,
}

pub by_key-Distinct : (cs : List Condition) (m : Messages) → Distinct m → Distinct (by_key cs m)
unfolding by_key
by_key-Distinct [] m d = d
by_key-Distinct (c ∷ cs) m d =
    by_key-Distinct cs (insert c.key c.message m) (insert-Distinct c.key c.message m d)

-- An error stays.
fire_key-failure :
    (mailer : Mailer) (current last : Messages) (k : Str) (r : Round)
    → (fire_key mailer current last k r).failure ≡ none
    → r.failure ≡ none
unfolding fire_key
fire_key-failure mailer current last k r h = ground arith

fire-failure :
    (mailer : Mailer) (current last : Messages) (ks : List Str) (r : Round)
    → (fire mailer current last ks r).failure ≡ none
    → r.failure ≡ none
unfolding fire
fire-failure mailer current last [] r h = h
fire-failure mailer current last (k ∷ ks) r h =
    fire_key-failure mailer current last k r
      (fire-failure mailer current last ks (fire_key mailer current last k r) h)

fire_key-mailed :
    (mailer : Mailer) (current last : Messages) (k : Str) (r : Round)
    → lookup k last ≡ none
    → (fire_key mailer current last k r).failure ≡ none
    → mem k (fire_key mailer current last k r).fired ≡ true
unfolding fire_key mem
fire_key-mailed mailer current last k r n h =
    ground (arith, mem-append k r.fired (k ∷ []), eq_iff k k)

fire-mailed :
    (mailer : Mailer) (current last : Messages) (ks : List Str) (j : Str) (r : Round)
    → Unique ks
    → mem j ks ≡ true
    → lookup j last ≡ none
    → (fire mailer current last ks r).failure ≡ none
    → mem j (fire mailer current last ks r).fired ≡ true
unfolding fire mem
fire-mailed mailer current last [] j r u m n h = cc
fire-mailed mailer current last (k ∷ ks) j r (fresh, u) m n h = elim (Bool-cases (k == j)) [
  | inl same ↦
      let r' = fire_key mailer current last k r in
      let p : k ≡ j = (eq_iff k j).0 same in
      subst (λ x. mem x (fire mailer current last ks r').fired ≡ true) p
        ((fire-other mailer current last ks k r' fresh).1
          ∙ fire_key-mailed mailer current last k r (rw p n)
              (fire-failure mailer current last ks r' h))
  | inr other ↦
      fire-mailed mailer current last ks j (fire_key mailer current last k r) u (ground arith) n h
]

resolve_key-failure :
    (mailer : Mailer) (current last : Messages) (k : Str) (r : Round)
    → (resolve_key mailer current last k r).failure ≡ none
    → r.failure ≡ none
unfolding resolve_key
resolve_key-failure mailer current last k r h = ground arith

resolve-failure :
    (mailer : Mailer) (current last : Messages) (ks : List Str) (r : Round)
    → (resolve mailer current last ks r).failure ≡ none
    → r.failure ≡ none
unfolding resolve
resolve-failure mailer current last [] r h = h
resolve-failure mailer current last (k ∷ ks) r h =
    resolve_key-failure mailer current last k r
      (resolve-failure mailer current last ks (resolve_key mailer current last k r) h)

resolve_key-mailed :
    (mailer : Mailer) (current last : Messages) (k : Str) (r : Round)
    → lookup k current ≡ none
    → (resolve_key mailer current last k r).failure ≡ none
    → mem k (resolve_key mailer current last k r).resolved ≡ true
unfolding resolve_key mem
resolve_key-mailed mailer current last k r n h =
    ground (arith, mem-append k r.resolved (k ∷ []), eq_iff k k)

resolve-mailed :
    (mailer : Mailer) (current last : Messages) (ks : List Str) (j : Str) (r : Round)
    → Unique ks
    → mem j ks ≡ true
    → lookup j current ≡ none
    → (resolve mailer current last ks r).failure ≡ none
    → mem j (resolve mailer current last ks r).resolved ≡ true
unfolding resolve mem
resolve-mailed mailer current last [] j r u m n h = cc
resolve-mailed mailer current last (k ∷ ks) j r (fresh, u) m n h = elim (Bool-cases (k == j)) [
  | inl same ↦
      let r' = resolve_key mailer current last k r in
      let p : k ≡ j = (eq_iff k j).0 same in
      subst (λ x. mem x (resolve mailer current last ks r').resolved ≡ true) p
        ((resolve-other mailer current last ks k r' fresh).1
          ∙ resolve_key-mailed mailer current last k r (rw p n)
              (resolve-failure mailer current last ks r' h))
  | inr other ↦
      resolve-mailed mailer current last ks j (resolve_key mailer current last k r) u (ground arith)
        n h
]

-- Without an error, the new set is the current one.
pub exchange-exact :
    (mailer : Mailer) (current last : Messages) (k : Str)
    → Distinct current
    → Distinct last
    → (exchange mailer current last).failure ≡ none
    → lookup k (exchange mailer current last).new_set ≡ lookup k current
unfolding exchange next_message
exchange-exact mailer current last k dc dl h =
    let f = fire mailer current last (sorted_keys current) fresh_round in
    ground (
      arith,
      exchange-lookup mailer current last k dc dl,
      mem-sorted_keys k current,
      mem-sorted_keys k last,
      resolve-fired mailer current last (sorted_keys last) f,
      fire-mailed mailer current last (sorted_keys current) k fresh_round
          (sorted_keys-Unique current dc),
      resolve-mailed mailer current last (sorted_keys last) k f (sorted_keys-Unique last dl),
      resolve-failure mailer current last (sorted_keys last) f,
    )

-- No mail is attempted for a key that was firing, or for one that still is.
pub fire-silent :
    (mailer : Mailer) (current last : Messages) (ks : List Str) (r : Round)
    → ((j : Str) → mem j ks ≡ true → is_some (lookup j last) ≡ true)
    → (fire mailer current last ks r).mails ≡ r.mails
unfolding fire mem
fire-silent mailer current last [] r h = refl
fire-silent mailer current last (k ∷ ks) r h =
    fire-silent mailer current last ks (fire_key mailer current last k r)
      (λ j m. h j (ground arith))
    ∙ (unfold fire_key in rw (h k (ground (arith, eq_iff k k))))

pub resolve-silent :
    (mailer : Mailer) (current last : Messages) (ks : List Str) (r : Round)
    → ((j : Str) → mem j ks ≡ true → is_some (lookup j current) ≡ true)
    → (resolve mailer current last ks r).mails ≡ r.mails
unfolding resolve mem
resolve-silent mailer current last [] r h = refl
resolve-silent mailer current last (k ∷ ks) r h =
    resolve-silent mailer current last ks (resolve_key mailer current last k r)
      (λ j m. h j (ground arith))
    ∙ (unfold resolve_key in rw (h k (ground (arith, eq_iff k k))))
