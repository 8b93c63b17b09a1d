-- ===== src/Shellword/Quoting.antt =====
-- Quoting a word and splitting: every argv survives, and an open quote is an error.
use rdda.Common.{
  true, false, List, [], ◌∷◌, ◌++◌, append_assoc, append-nil, ◌≡◌, refl, ap, ◌∙◌, Str, ◌==◌, nat_eq,
  arith, if◌then◌else◌, All, ◌≢◌,
}
use rdda.Common.Results.{ok, err}
use rdda.Shellword.{Scan, single, backslash, step, scan, finish, start, split, unterminated}

pub scan-append : (s : Scan) (a b : Str) → scan s (a ++ b) ≡ scan (scan s a) b
unfolding scan
scan-append s [] b = refl
scan-append s (r ∷ a) b = scan-append (step s r) a b

-- The body of a single-quoted word with its closing quote; `'` is written `'\''`.
quoted_body : Str → Str
quoted_body [] = single ∷ []
quoted_body (c ∷ w) =
    let rest = quoted_body w in
    if c == single then single ∷ backslash ∷ single ∷ single ∷ rest else c ∷ rest

-- The shell's quoting of a word, and of an argv with one space between words.
pub quoted : Str → Str
quoted w = single ∷ quoted_body w

following : List Str → Str
following [] = []
following (w ∷ ws) = b' ' ∷ quoted w ++ following ws

pub command_line : List Str → Str
command_line [] = []
command_line (w ∷ ws) = quoted w ++ following ws

abbrev in_quote : List Str → Str → Scan
in_quote ws cur = record { words = ws; cur = cur; in_word = true; quote = single; escaped = false }

abbrev after_word : List Str → Str → Scan
after_word ws cur = record { words = ws; cur = cur; in_word = true; quote = 0; escaped = false }

scan-quoted_body :
    (w : Str) (ws : List Str) (cur : Str)
    → scan (in_quote ws cur) (quoted_body w) ≡ after_word ws (cur ++ w)
unfolding scan step quoted_body
scan-quoted_body [] ws cur = rw append-nil
scan-quoted_body (c ∷ w) ws cur =
    ground (arith, scan-quoted_body w ws (cur ++ c ∷ []), append_assoc cur (c ∷ []) w)

open_next :
    (v : Str) (vs ws : List Str) (cur : Str)
    → scan (after_word ws cur) (b' ' ∷ quoted v ++ following vs)
      ≡ scan (in_quote (ws ++ cur ∷ []) []) (quoted_body v ++ following vs)
unfolding scan step quoted
open_next v vs ws cur = refl

scan-following :
    (vs ws : List Str) (cur : Str)
    → finish (scan (after_word ws cur) (following vs)) ≡ ok (ws ++ cur ∷ vs)
unfolding following
scan-following [] ws cur = unfold scan finish in refl
scan-following (v ∷ vs) ws cur = rw (open_next v vs ws cur) (
    rw (scan-append _ (quoted_body v) (following vs), scan-quoted_body v (ws ++ cur ∷ []) [])
      (scan-following vs (ws ++ cur ∷ []) v ∙ ap ok (append_assoc ws (cur ∷ []) (v ∷ vs))))

open_first :
    (w : Str) (ws : List Str)
    → split (command_line (w ∷ ws)) ≡ finish (scan (in_quote [] []) (quoted_body w ++ following ws))
unfolding split quoted command_line
open_first w ws = refl

-- Splitting the quoted form of any argv gives that argv back, whatever its words hold.
pub split-command_line : (ws : List Str) → split (command_line ws) ≡ ok ws
unfolding split command_line
split-command_line [] = refl
split-command_line (w ∷ ws) = rw (open_first w ws) (
    rw (scan-append _ (quoted_body w) (following ws), scan-quoted_body w [] [])
      (scan-following ws [] w))

-- Inside single quotes only a single quote ends the quotation.
scan-quote :
    (w : Str) (s : Scan)
    → s.quote ≡ single
    → s.escaped ≡ false
    → All (λ c. c ≢ single) w
    → (scan s w).quote ≡ single
unfolding scan
scan-quote [] s q e h = q
scan-quote (c ∷ w) s q e (hc, hw) =
    scan-quote w (step s c) (unfold step in ground arith) (unfold step in ground arith) hw

opening_quote :
    (s : Scan)
    → s.quote ≡ 0
    → s.escaped ≡ false
    → ((step s single).quote ≡ single) × ((step s single).escaped ≡ false)
unfolding step
opening_quote s q e = ground arith

-- An input that ends inside single quotes, with no other quote pending before them, is refused: no
-- truncated argv is returned.
pub split_open_quote :
    (s w : Str)
    → (scan start s).quote ≡ 0
    → (scan start s).escaped ≡ false
    → All (λ c. c ≢ single) w
    → split (s ++ single ∷ w) ≡ err (unterminated single)
unfolding split
split_open_quote s w q e h =
    let (opened, plain) = opening_quote (scan start s) q e in
    let last = scan-quote w (step (scan start s) single) opened plain h in
    rw (scan-append start s (single ∷ w)) (unfold scan finish in ground (arith, last))
