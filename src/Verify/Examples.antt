-- ===== src/Verify/Examples.antt =====
-- A toy signature scheme in which a signature repeats the message, padded to 64 bytes, and a file that
-- verifies under it.
use rdda.Common.{
  arith, inl, ℕ, zero, suc, [], ◌∷◌, ◌++◌, Str, codes, str_eq, ◌==◌, str_instance, ◌≡◌, refl, take,
  utf8, split_on, trim_right, trim_left, trim_space, has_prefix, drop_prefix, is_space, contains,
}
use rdda.Common.Results.{ok, err}
use rdda.Common.Base64.{base64_decode}
use rdda.Verify.{
  Bytes, Crypto, PublicKey, parse_minisig, verify, signed_message, decoded, drop_blank_tail,
  keep_line, four_lines, trim_crs, maintainer, key_placeholder,
}
use rdda.Verify.Soundness.{Authentic, verify_sound}
use rdda.Verify.Parsing.{minisig_file}
use rdda.Verify.Accepting.{Signature, verify-minisig_file}

abbrev zeros : ℕ → Bytes
zeros zero = []
zeros (suc n) = 0 ∷ zeros n

abbrev toy : Crypto
toy = record {
  ed25519_verify = λ key message sig. take 64 (message ++ zeros 64) == sig;
  blake2b_512 = λ m. m;
}

abbrev toy_key : PublicKey
toy_key = record { key_id = zeros 8; key = zeros 32 }

-- "Ed", eight zero bytes, then "hi" and 62 zero bytes; the global signature is "hi" and 62 zero bytes.
abbrev sig_line : Str
sig_line =
    codes
      "RWQAAAAAAAAAAGhpAAAAAAAAAAAAAAAAAAAAAAAAAAAAAAAAAAAAAAAAAAAAAAAAAAAAAAAAAAAAAAAAAAAAAAAAAAAAAAAAAAA="

abbrev global_line : Str
global_line =
    codes "aGkAAAAAAAAAAAAAAAAAAAAAAAAAAAAAAAAAAAAAAAAAAAAAAAAAAAAAAAAAAAAAAAAAAAAAAAAAAAAAAAAAAA=="

abbrev toy_file : Str
toy_file = minisig_file (codes " toy") sig_line (codes "t") global_line

toy_verifies : verify toy toy_key (codes "hi") toy_file ≡ ok tt
unfolding verify parse_minisig minisig_file decoded drop_blank_tail keep_line four_lines trim_crs
    signed_message split_on trim_right trim_left trim_space has_prefix drop_prefix is_space
    base64_decode str_eq utf8
toy_verifies = refl

verify_sound_example : Authentic toy toy_key (codes "hi") toy_file
verify_sound_example = verify_sound toy toy_key (codes "hi") toy_file toy_verifies

abbrev hi : Bytes
hi = codes "hi" ++ zeros 62

toy_signature : Signature toy toy_key (codes "hi") (codes "t")
unfolding str_eq
toy_signature = record {
  alg = codes "Ed";
  message = codes "hi";
  bytes = hi;
  global = hi;
  signs = inl (refl, refl);
  key_id_length = refl;
  bytes_length = refl;
  global_length = refl;
  over_message = refl;
  over_comment = refl;
}

verify-minisig_file_example : verify toy toy_key (codes "hi") toy_file ≡ ok tt
unfolding toy_signature is_space base64_decode
verify-minisig_file_example =
    verify-minisig_file toy toy_key (codes "hi") (codes " toy") sig_line (codes "t") global_line
      toy_signature (omega arith) ((λ p. cc), refl) (omega arith) ((λ p. cc), refl) refl refl

placeholder_refused : maintainer (codes "PLACEHOLDER-UNSIGNED") ≡ err key_placeholder
unfolding maintainer contains has_prefix
placeholder_refused = refl
