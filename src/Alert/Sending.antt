-- ===== src/Alert/Sending.antt =====
-- Engine.Run, the loops that mail the transitions, and the persisted firing set.
mod Firing
mod Resolving
pub mod Transitions
pub mod Runs
pub mod Delivery
pub mod Settled
mod Examples
use rdda.Common.{
  ℕ, Bool, true, false, List, [], ◌∷◌, ◌++◌, Option, none, some, Str, codes, ◌==◌, ◌||◌, not,
  str_instance, if◌then◌else◌, is_some, str_lt,
}
use rdda.Common.Assoc.{lookup, insert, keys}
use rdda.Common.Sorting.{sort}
use rdda.Heal.{first_error}
use rdda.Alert.{Condition, AlertConfig}

pub record Mail : Type 0 where
  pub subject : Str
  pub body : Str

-- The answer to a mail, after the mails that were attempted before it: an error, or none.
abbrev pub Mailer : Type 0
Mailer = List Mail → Mail → Option Str

-- map[string]string
abbrev pub Messages : Type 0
Messages = List (Str × Str)

-- The variables of Run's loops, and the mails attempted so far.
pub record Round : Type 0 where
  pub mails : List Mail
  pub new_set : Messages
  pub fired : List Str
  pub resolved : List Str
  pub failure : Option Str

-- A missing key reads as the empty string.
pub at : Messages → Str → Str
at m k = elim (lookup k m) [ none ↦ [] | some v ↦ v ]

abbrev alert_mail : Str → Mail
alert_mail msg = record { subject = codes "[RDDA ALERT] " ++ msg; body = msg }

abbrev resolved_mail : Str → Mail
resolved_mail msg = record { subject = codes "[RDDA RESOLVED] " ++ msg; body = msg }

-- After an attempt: an error keeps the key out, so that it fires again in the next run.
abbrev pub fire_sent : Str → Str → Option Str → Round → Round
fire_sent k msg none r = record r { new_set = insert k msg r.new_set; fired = r.fired ++ k ∷ [] }
fire_sent k msg (some e) r = record r { failure = first_error r.failure e }

pub fire_key : Mailer → Messages → Messages → Str → Round → Round
unfolding at
fire_key mailer current last k r =
    if is_some (lookup k last)
    then record r { new_set = insert k (at current k) r.new_set }
    else (let mail = alert_mail (at current k) in
        fire_sent k (at current k) (mailer r.mails mail)
          (record r { mails = r.mails ++ mail ∷ [] }))

pub fire : Mailer → Messages → Messages → List Str → Round → Round
fire mailer current last [] r = r
fire mailer current last (k ∷ ks) r = fire mailer current last ks (fire_key mailer current last k r)

-- An error keeps the key, so that the notice is sent again in the next run.
abbrev pub resolve_sent : Str → Str → Option Str → Round → Round
resolve_sent k msg none r = record r { resolved = r.resolved ++ k ∷ [] }
resolve_sent k msg (some e) r = record r {
  failure = first_error r.failure e;
  new_set = insert k msg r.new_set;
}

pub resolve_key : Mailer → Messages → Messages → Str → Round → Round
unfolding at
resolve_key mailer current last k r =
    if is_some (lookup k current)
    then r
    else (let mail = resolved_mail (at last k) in
        resolve_sent k (at last k) (mailer r.mails mail)
          (record r { mails = r.mails ++ mail ∷ [] }))

pub resolve : Mailer → Messages → Messages → List Str → Round → Round
resolve mailer current last [] r = r
resolve mailer current last (k ∷ ks) r =
    resolve mailer current last ks (resolve_key mailer current last k r)

-- sortedKeys
pub sorted_keys : Messages → List Str
sorted_keys m = sort str_lt (keys m)

-- `current[c.Key] = c.Message` for each condition.
pub by_key : List Condition → Messages → Messages
by_key [] m = m
by_key (c ∷ cs) m = by_key cs (insert c.key c.message m)

abbrev pub fresh_round : Round
fresh_round = record { mails = []; new_set = []; fired = []; resolved = []; failure = none }

-- Both loops: the keys that fire, then the keys that resolve.
pub exchange : Mailer → Messages → Messages → Round
exchange mailer current last =
    resolve mailer current last (sorted_keys last)
      (fire mailer current last (sorted_keys current) fresh_round)

-- The file alert-state.json; a file that cannot be read or parsed counts as an empty set.
abbrev pub StateFile : Type 0
StateFile = Option Messages

pub load_firing : StateFile → Messages
load_firing none = []
load_firing (some m) = m

-- saveFiring writes a temporary file and renames it, so a failure leaves the old file.
pub save_firing : Option Str → Messages → StateFile → StateFile
save_firing none m file = some m
save_firing (some e) m file = file

pub record Outcome : Type 0 where
  pub fired : List Str
  pub resolved : List Str
  pub failure : Option Str
  pub mails : List Mail
  pub file : StateFile

save_failure : Option Str → Option Str → Option Str
save_failure failure none = failure
save_failure failure (some e) = first_error failure e

-- Run, given the conditions that evaluate found and what saving will answer.
pub run : AlertConfig → Mailer → Option Str → List Condition → StateFile → Outcome
unfolding save_failure save_firing load_firing
run c mailer save_error conditions file =
    if not c.enabled || c.email == []
    then record { fired = []; resolved = []; failure = none; mails = []; file = file }
    else (let r = exchange mailer (by_key conditions []) (load_firing file) in
        record {
          fired = r.fired;
          resolved = r.resolved;
          failure = save_failure r.failure save_error;
          mails = r.mails;
          file = save_firing save_error r.new_set file;
        })
