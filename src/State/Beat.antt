-- ===== src/State/Beat.antt =====
-- internal/state/health.go: the RU node's last beat, kept in a file beside its temporary copy. The JSON
-- printer and parser and the file system's answers are arguments.
pub mod RoundTrip
pub mod Examples
use rdda.Common.{ℕ, Option, none, some, Str}
use rdda.Common.Results.{Result, ok, err, ◌>>=◌}
use rdda.Health.{Report}

pub record RuHealth : Type 0 where
  pub report : Report
  pub received_at : ℕ

-- A file: absent, not readable, or a text.
pub data Stored (Text : Type 0) : Type 0 where
  absent : Stored Text
  unreadable : Str → Stored Text
  present : Text → Stored Text

-- ru-health.json and ru-health.json.tmp.
pub record BeatFiles (Text : Type 0) : Type 0 where
  pub current : Stored Text
  pub temporary : Stored Text

-- Whether the write and the rename fail, and what a failed write leaves.
pub record BeatEnv (Text : Type 0) : Type 0 where
  pub write : Option Str
  pub torn : Stored Text
  pub rename : Option Str

module _ {Text : Type 0} (e : BeatEnv Text) where
  renamed : Option Str → Text → BeatFiles Text → Option Str × BeatFiles Text
  renamed (some x) t files = (some x, record files { temporary = present t })
  renamed none t files = (none, record { current = present t; temporary = absent })

  written : Option Str → Text → BeatFiles Text → Option Str × BeatFiles Text
  unfolding renamed
  written (some x) t files = (some x, record files { temporary = e.torn })
  written none t files = renamed e.rename t files

  printed : Result Str Text → BeatFiles Text → Option Str × BeatFiles Text
  unfolding written
  printed (err x) files = (some x, files)
  printed (ok t) files = written e.write t files

  -- SaveRUHealth
  unfoldable pub save_ru_health :
      (RuHealth → Result Str Text) → RuHealth → BeatFiles Text → Option Str × BeatFiles Text
  unfolding printed
  save_ru_health marshal h files = printed (marshal h) files

module _ {Text : Type 0} (unmarshal : Text → Result Str RuHealth) where
  read_beat : Stored Text → Result Str (Option RuHealth)
  read_beat absent = ok none
  read_beat (unreadable x) = err x
  read_beat (present t) = do h ← unmarshal t; ok (some h)

  -- LoadRUHealth: `none` where no beat has arrived.
  unfoldable pub load_ru_health : BeatFiles Text → Result Str (Option RuHealth)
  unfolding read_beat
  load_ru_health files = read_beat files.current
