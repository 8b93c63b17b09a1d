-- ===== src/Common/Base64.antt =====
-- encoding/base64's StdEncoding.DecodeString: line ends are skipped, the input comes in groups of four
-- characters, and only the last group may be padded.
use rdda.Common.{
  ℕ, ◌+◌, ◌-◌, ◌*◌, ◌/◌, ◌%◌, List, [], ◌∷◌, ◌++◌, Option, none, some, Str, codes, ◌==◌, nat_eq,
  ◌&&◌, ◌||◌, ◌≡◌, refl, leb, if◌then◌else◌,
}

infixl 5 ◌>>=◌
abbrev ◌>>=◌ {ℓ κ} : {A : Type ℓ} {B : Type κ} → Option A → (A → Option B) → Option B
none >>= f = none
some a >>= f = f a

sextet : ℕ → Option ℕ
sextet c =
    if leb b'A' c && leb c b'Z'
    then some (c - b'A')
    else if leb b'a' c && leb c b'z'
    then some (c - b'a' + 26)
    else if leb b'0' c && leb c b'9'
    then some (c - b'0' + 52)
    else if c == b'+'
    then some 62
    else if c == b'/'
    then some 63
    else none

skip_line_ends : Str → Str
skip_line_ends [] = []
skip_line_ends (c ∷ s) =
    let rest = skip_line_ends s in if c == 10 || c == 13 then rest else c ∷ rest

one : ℕ → ℕ → Option (List ℕ)
one a b = do x ← sextet a; y ← sextet b; some ((x * 4 + y / 16) ∷ [])

two : ℕ → ℕ → ℕ → Option (List ℕ)
two a b c = do
  x ← sextet a
  y ← sextet b
  z ← sextet c
  some ((x * 4 + y / 16) ∷ (y % 16 * 16 + z / 4) ∷ [])

three : ℕ → ℕ → ℕ → ℕ → Option (List ℕ)
three a b c d = do
  x ← sextet a
  y ← sextet b
  z ← sextet c
  w ← sextet d
  some ((x * 4 + y / 16) ∷ (y % 16 * 16 + z / 4) ∷ (z % 4 * 64 + w) ∷ [])

padded : ℕ → ℕ → ℕ → ℕ → Option (List ℕ)
unfolding one two three
padded a b c d = if d == b'=' then (if c == b'=' then one a b else two a b c) else three a b c d

quads : Str → Option (List ℕ)
unfolding padded three
quads [] = some []
quads (a ∷ b ∷ c ∷ d ∷ []) = padded a b c d
quads (a ∷ b ∷ c ∷ d ∷ e ∷ s) =
    let rest = quads (e ∷ s) in do x ← three a b c d; y ← rest; some (x ++ y)
quads _ = none

unfoldable pub base64_decode : Str → Option (List ℕ)
unfolding skip_line_ends quads sextet
base64_decode s = quads (skip_line_ends s)

decode_padded : base64_decode (codes "UkRE\nQQ==") ≡ some (codes "RDDA")
unfolding base64_decode
decode_padded = refl
