-- ===== src/Alert/Sending/Settled.antt =====
-- Engine.Run as a whole: what it persists, and that each transition is mailed once.
use rdda.Common.{
  true, false, List, [], Option, none, some, Str, ◌==◌, ◌≡◌, ◌≢◌, sym, ◌∙◌, str_instance, is_some,
  arith, not_eq, ◌||◌, not,
}
use rdda.Common.Assoc.{lookup, mem, Distinct}
use rdda.Heal.{first_error}
use rdda.Alert.{Condition, AlertConfig}
use rdda.Alert.Sending.{
  Mailer, Messages, fire, fresh_round, sorted_keys, exchange, by_key, StateFile, load_firing,
  save_firing, save_failure, run,
}
use rdda.Alert.Sending.Delivery.{Delivered, fired_mail, past_mail, exchange-Honest}
use rdda.Alert.Sending.Transitions.{exchange-lookup, next_message, mem-sorted_keys}
use rdda.Alert.Sending.Runs.{by_key-Distinct, exchange-exact, fire-silent, resolve-silent}

-- The conditions of a run, by key.
abbrev pub current_set : List Condition → Messages
current_set cs = by_key cs []

abbrev pub IsOn : AlertConfig → Type 0
IsOn c = (c.enabled ≡ true) × (c.email ≢ [])

first_error-ne-none : (o : Option Str) (e : Str) → first_error o e ≢ none
first_error-ne-none o e h = ground arith

module _ (c : AlertConfig) (mailer : Mailer) (cs : List Condition) (file : StateFile)
    (on : IsOn c) where
  is_on : (not c.enabled || c.email == []) ≡ false
  is_on = ground (arith, not_eq c.email [] on.1)

  -- If alerting is on and the set is saved: the saved set holds for each key what its transition says, a
  -- condition that was firing or is among the fired ones, and a past one that is not among the resolved
  -- ones; and a key is among the fired ones only if the mailer took the mail of its current message, and
  -- among the resolved ones only if it took the mail of its past message.
  pub run-saved :
      (k : Str)
      → Distinct (load_firing file)
      → let out = run c mailer none cs file in
        (lookup k (load_firing out.file)
          ≡ next_message
              (lookup k (current_set cs))
              (lookup k (load_firing file))
              (mem k out.fired)
              (mem k out.resolved))
        × (mem k out.fired ≡ true
            → Delivered mailer out.mails (fired_mail mailer (current_set cs) (load_firing file) k))
        × (mem k out.resolved ≡ true
            → Delivered mailer out.mails (past_mail mailer (current_set cs) (load_firing file) k))
  unfolding run load_firing
  run-saved k d =
      let (fired, past) = exchange-Honest mailer (current_set cs) (load_firing file) in
      rw is_on (
        exchange-lookup mailer (current_set cs) (load_firing file) k (by_key-Distinct cs [] tt) d,
        fired k,
        past k,
      )

  -- If alerting is on, a run that reports no error, from saving or from a mail, persists exactly the
  -- current conditions and their messages.
  pub run-exact :
      (save_error : Option Str) (k : Str)
      → Distinct (load_firing file)
      → (run c mailer save_error cs file).failure ≡ none
      → lookup k (load_firing (run c mailer save_error cs file).file) ≡ lookup k (current_set cs)
  unfolding run load_firing save_failure save_firing
  run-exact none k d =
      rw is_on
        (exchange-exact mailer (current_set cs) (load_firing file) k (by_key-Distinct cs [] tt) d)
  run-exact (some e) k d = rw is_on (λ h.
      absurd
        (first_error-ne-none (exchange mailer (current_set cs) (load_firing file)).failure e h))

  -- A run whose conditions have the keys of the persisted set attempts no mail.
  run-silent :
      (save_error : Option Str)
      → ((k : Str) → is_some (lookup k (load_firing file)) ≡ is_some (lookup k (current_set cs)))
      → (run c mailer save_error cs file).mails ≡ []
  unfolding run load_firing exchange
  run-silent save_error same =
      let current = current_set cs in
      let last = load_firing file in
      rw is_on (
        resolve-silent mailer current last (sorted_keys last)
          (fire mailer current last (sorted_keys current) fresh_round)
          (λ j m. sym (same j) ∙ sym (mem-sorted_keys j last) ∙ m)
        ∙ fire-silent mailer current last (sorted_keys current) fresh_round
            (λ j m. same j ∙ sym (mem-sorted_keys j current) ∙ m))

-- Each transition is mailed once: if alerting is on and a run reports no error, the next run under the
-- same conditions attempts no mail, whatever its mailer would answer.
pub run-once :
    (c : AlertConfig) (mailer mailer' : Mailer) (cs : List Condition) (file : StateFile)
    (save_error save_error' : Option Str)
    → IsOn c
    → Distinct (load_firing file)
    → (run c mailer save_error cs file).failure ≡ none
    → (run c mailer' save_error' cs (run c mailer save_error cs file).file).mails ≡ []
run-once c mailer mailer' cs file save_error save_error' on d h =
    run-silent c mailer' cs (run c mailer save_error cs file).file on save_error'
      (λ k. rw (run-exact c mailer cs file on save_error k d h))
