-- ===== src/Verify.antt =====
-- internal/verify: minisign signatures against the embedded maintainer key. Ed25519 and BLAKE2b are
-- parameters; base64, the line format and the checks around them are modelled.
pub mod Soundness
pub mod Parsing
pub mod Accepting
mod Examples
use rdda.Common.{
  ℕ, Bool, true, false, List, [], ◌∷◌, ◌++◌, Option, none, some, Str, codes, ◌==◌, ◌||◌,
  str_instance, nat_eq, has_prefix, drop_prefix, trim_right, trim_space, split_on, contains, utf8,
  length, take, drop, if◌then◌else◌,
}
use rdda.Common.Results.{Result, ok, err, ◌>>=◌}
use rdda.Common.Base64.{base64_decode}

abbrev pub Bytes : Type 0
Bytes = List ℕ

-- ed25519.Verify(key, message, signature) and blake2b.Sum512.
pub record Crypto : Type 0 where
  pub ed25519_verify : Bytes → Bytes → Bytes → Bool
  pub blake2b_512 : Bytes → Bytes

pub data VerifyError : Type 0 where
  key_placeholder key_empty key_base64 : VerifyError
  key_length : ℕ → VerifyError
  key_algorithm : Bytes → VerifyError
  sig_lines : ℕ → VerifyError
  sig_untrusted sig_trusted sig_base64 : VerifyError
  sig_length : ℕ → VerifyError
  sig_key_id : VerifyError
  sig_algorithm : Bytes → VerifyError
  sig_invalid global_base64 : VerifyError
  global_length : ℕ → VerifyError
  global_invalid : VerifyError

pub record PublicKey : Type 0 where
  pub key_id : Bytes
  pub key : Bytes

-- `raw[from:from+count]`
abbrev pub slice : ℕ → ℕ → Bytes → Bytes
slice from count b = take count (drop from b)

abbrev pub alg_legacy : Bytes
alg_legacy = codes "Ed"

abbrev pub alg_prehashed : Bytes
alg_prehashed = codes "ED"

abbrev pub is_cr : ℕ → Bool
is_cr c = c == 13

last_payload : Str → List Str → Str
last_payload out [] = out
last_payload out (l ∷ ls) =
    let ln = trim_space (trim_right is_cr l) in
    last_payload (if ln == [] || has_prefix ln (codes "untrusted comment:") then out else ln) ls

pub last_payload_line : Str → Str
unfolding last_payload
last_payload_line s = last_payload [] (split_on 10 s)

decoded : VerifyError → Option Bytes → Result VerifyError Bytes
decoded e none = err e
decoded e (some b) = ok b

key_of_raw : Bytes → Result VerifyError PublicKey
key_of_raw raw =
    if length raw == 42
    then (if slice 0 2 raw == alg_legacy
        then ok (record { key_id = slice 2 8 raw; key = slice 10 32 raw })
        else err (key_algorithm (slice 0 2 raw)))
    else err (key_length (length raw))

pub parse_public_key : Str → Result VerifyError PublicKey
unfolding decoded key_of_raw
parse_public_key s =
    let line = last_payload_line s in
    if line == [] then err key_empty else (decoded key_base64 (base64_decode line) >>= key_of_raw)

abbrev pub placeholder_marker : Str
placeholder_marker = codes "PLACEHOLDER-UNSIGNED"

-- Maintainer, for the embedded key file.
pub maintainer : Str → Result VerifyError PublicKey
unfolding parse_public_key
maintainer embedded =
    if contains embedded placeholder_marker then err key_placeholder else parse_public_key embedded

pub record SignatureFile : Type 0 where
  pub sig_line : Str
  pub trusted_comment : Str
  pub global_line : Str

pub trim_crs : List Str → List Str
trim_crs [] = []
trim_crs (l ∷ ls) = trim_right is_cr l ∷ trim_crs ls

pub keep_line : Str → List Str → List Str
keep_line l [] = if trim_space l == [] then [] else l ∷ []
keep_line l (m ∷ ls) = l ∷ m ∷ ls

-- The loop that takes blank lines off the end.
pub drop_blank_tail : List Str → List Str
unfolding keep_line
drop_blank_tail [] = []
drop_blank_tail (l ∷ ls) = keep_line l (drop_blank_tail ls)

abbrev pub untrusted_prefix : Str
untrusted_prefix = codes "untrusted comment:"

abbrev pub trusted_prefix : Str
trusted_prefix = codes "trusted comment: "

four_lines : List Str → Result VerifyError SignatureFile
four_lines (l0 ∷ l1 ∷ l2 ∷ l3 ∷ []) =
    if has_prefix l0 untrusted_prefix
    then (if has_prefix l2 trusted_prefix
        then ok (record {
          sig_line = trim_space l1;
          trusted_comment = drop_prefix l2 trusted_prefix;
          global_line = trim_space l3;
        })
        else err sig_trusted)
    else err sig_untrusted
four_lines ls = err (sig_lines (length ls))

pub parse_minisig : Str → Result VerifyError SignatureFile
unfolding four_lines drop_blank_tail trim_crs
parse_minisig s = four_lines (drop_blank_tail (trim_crs (split_on 10 s)))

-- What the content signature signs, by the algorithm.
pub signed_message : Crypto → Bytes → Bytes → Result VerifyError Bytes
signed_message crypto alg content =
    if alg == alg_legacy
    then ok content
    else if alg == alg_prehashed
    then ok (crypto.blake2b_512 content)
    else err (sig_algorithm alg)

abbrev pub require : Bool → VerifyError → Result VerifyError (Unit {0})
require true e = ok tt
require false e = err e

-- (*PublicKey).Verify
pub verify : Crypto → PublicKey → Bytes → Str → Result VerifyError (Unit {0})
unfolding decoded
verify crypto pub_key content minisig = do
  file ← parse_minisig minisig
  blob ← decoded sig_base64 (base64_decode file.sig_line)
  sized ← require (length blob == 74) (sig_length (length blob))
  own_key ← require (slice 2 8 blob == pub_key.key_id) sig_key_id
  signed ← signed_message crypto (slice 0 2 blob) content
  valid ← require (crypto.ed25519_verify pub_key.key signed (slice 10 64 blob)) sig_invalid
  global ← decoded global_base64 (base64_decode file.global_line)
  global_sized ← require (length global == 64) (global_length (length global))
  require (crypto.ed25519_verify pub_key.key (slice 10 64 blob ++ utf8 file.trusted_comment) global)
      global_invalid
