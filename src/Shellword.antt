-- ===== src/Shellword.antt =====
-- internal/shellword/shellword.go: splitting a command string into an argv. The loop over the runes
-- is a recursion over the state of `Split`'s local variables; `quote` is 0, `'` or `"`.
pub mod Examples
pub mod Quoting
use rdda.Common.{
  ℕ, Bool, true, false, List, [], ◌∷◌, ◌++◌, ◌≡◌, refl, Str, codes, ◌==◌, nat_eq, ◌||◌,
  if◌then◌else◌,
}
use rdda.Common.Results.{Result, ok, err}

pub data SplitError : Type 0 where
  unterminated : ℕ → SplitError
  trailing_backslash : SplitError

pub record Scan : Type 0 where
  pub words : List Str
  pub cur : Str
  pub in_word : Bool
  pub quote : ℕ
  pub escaped : Bool

abbrev pub single : ℕ
single = b'\''

abbrev pub double : ℕ
double = b'"'

abbrev pub backslash : ℕ
backslash = b'\\'

abbrev pub is_blank : ℕ → Bool
is_blank r = r == b' ' || r == 9 || r == 10 || r == 13

pub flush : Scan → Scan
flush s = record s { words = s.words ++ s.cur ∷ []; cur = []; in_word = false }

-- One round of the loop: the outer switch, in order.
pub step : Scan → ℕ → Scan
unfolding flush
step s r =
    if s.escaped
    then record s { cur = s.cur ++ r ∷ []; escaped = false; in_word = true }
    else if s.quote == single
    then (if r == single then record s { quote = 0 } else record s { cur = s.cur ++ r ∷ [] })
    else if s.quote == double
    then (if r == double
        then record s { quote = 0 }
        else if r == backslash
        then record s { escaped = true }
        else record s { cur = s.cur ++ r ∷ [] })
    else if r == backslash
    then record s { escaped = true; in_word = true }
    else if r == single || r == double
    then record s { quote = r; in_word = true }
    else if is_blank r
    then (if s.in_word then flush s else s)
    else record s { cur = s.cur ++ r ∷ []; in_word = true }

pub scan : Scan → Str → Scan
scan s [] = s
scan s (r ∷ rs) = scan (step s r) rs

pub finish : Scan → Result SplitError (List Str)
unfolding flush
finish s =
    if s.quote == 0
    then (if s.escaped
        then err trailing_backslash
        else if s.in_word
        then ok (flush s).words
        else ok s.words)
    else err (unterminated s.quote)

abbrev pub start : Scan
start = record { words = []; cur = []; in_word = false; quote = 0; escaped = false }

unfoldable pub split : Str → Result SplitError (List Str)
unfolding scan step finish
split s = finish (scan start s)

spaced_path :
    split (codes "'/opt/my tools/reload.sh' --now")
    ≡ ok (codes "/opt/my tools/reload.sh" ∷ codes "--now" ∷ [])
unfolding split
spaced_path = refl

escaped_in_quotes : split (codes "a\\ b \"x\\\"y\"") ≡ ok (codes "a b" ∷ codes "x\"y" ∷ [])
unfolding split
escaped_in_quotes = refl
