-- ===== src/Verify/Accepting.antt =====
-- Verify accepts the file that a holder of the secret key writes.
use rdda.Common.{
  ℕ, sym, append-nil, append_assoc, take-append, drop-append, length-append, true, [], ◌++◌, some,
  Str, str_instance, nat_eq, ◌≡◌, ◌⊎◌, refl, ◌∙◌, ap, inl, inr, arith, eq_iff, length, take, drop,
  utf8, str_eq,
}
use rdda.Common.Results.{ok}
use rdda.Common.Base64.{base64_decode}
use rdda.Verify
use rdda.Verify.{
  Bytes, Crypto, PublicKey, alg_legacy, alg_prehashed, parse_minisig, signed_message, verify,
}
use rdda.Verify.Parsing.{IsLine, IsPayload, minisig_file, parse_minisig-minisig_file}

take_first : (n : ℕ) (a b : Bytes) → length a ≡ n → take n (a ++ b) ≡ a
take_first n a b h = rw (← h) (take-append a b)

drop_first : (n : ℕ) (a b : Bytes) → length a ≡ n → drop n (a ++ b) ≡ b
drop_first n a b h = rw (← h) (drop-append a b)

take_all : (n : ℕ) (a : Bytes) → length a ≡ n → take n a ≡ a
take_all n a h = ap (take n) (sym (append-nil a)) ∙ take_first n a [] h

-- What is signed: the content itself under the first algorithm, its hash under the second.
abbrev pub Signs : Crypto → Bytes → Bytes → Bytes → Type 0
Signs crypto content alg message =
    ((alg ≡ alg_legacy) × (message ≡ content))
    ⊎ ((alg ≡ alg_prehashed) × (message ≡ crypto.blake2b_512 content))

-- The two signatures of a file, by the key k: over the content, and over the first and the trusted comment.
pub record Signature (crypto : Crypto) (k : PublicKey) (content : Bytes) (trusted : Str)
    : Type 0 where
  pub alg : Bytes
  pub message : Bytes
  pub bytes : Bytes
  pub global : Bytes
  pub signs : Signs crypto content alg message
  pub key_id_length : length k.key_id ≡ 8
  pub bytes_length : length bytes ≡ 64
  pub global_length : length global ≡ 64
  pub over_message : crypto.ed25519_verify k.key message bytes ≡ true
  pub over_comment : crypto.ed25519_verify k.key (bytes ++ utf8 trusted) global ≡ true

-- The message that Verify takes from the algorithm, which has two bytes.
signed_message-Signs :
    (crypto : Crypto) (content alg message : Bytes)
    → Signs crypto content alg message
    → (signed_message crypto alg content ≡ ok message) × (length alg ≡ 2)
unfolding signed_message str_eq
signed_message-Signs crypto content alg message (inl (p, q)) = rw (p, q) (refl, refl)
signed_message-Signs crypto content alg message (inr (p, q)) = rw (p, q) (refl, refl)

-- Verify accepts the file whose second line is the base64 of the algorithm, the key's id and the signature
-- over the content, or under the second algorithm over its hash, whose third line holds the trusted comment,
-- and whose last line is the base64 of the signature over the first one and that comment, if no line holds
-- a line end within it and the two signature lines hold no blank.
pub verify-minisig_file :
    (crypto : Crypto) (k : PublicKey) (content : Bytes) (comment sig_line trusted global_line : Str)
    (s : Signature crypto k content trusted)
    → IsLine comment
    → IsPayload sig_line
    → IsLine trusted
    → IsPayload global_line
    → base64_decode sig_line ≡ some (s.alg ++ (k.key_id ++ s.bytes))
    → base64_decode global_line ≡ some s.global
    → verify crypto k content (minisig_file comment sig_line trusted global_line) ≡ ok tt
unfolding verify Verify.decoded
verify-minisig_file crypto k content comment sig_line trusted global_line s hc hs ht hg first last =
    let (signs, two) = signed_message-Signs crypto content s.alg s.message s.signs in
    let body = k.key_id ++ s.bytes in
    let blob = s.alg ++ body in
    let sized : length blob ≡ 74 = omega (
      arith,
      length-append s.alg body,
      length-append k.key_id s.bytes,
      two,
      s.key_id_length,
      s.bytes_length,
    ) in
    let id : take 8 (drop 2 blob) ≡ k.key_id =
      ap (take 8) (drop_first 2 s.alg body two) ∙ take_first 8 k.key_id s.bytes s.key_id_length in
    let head_length : length (s.alg ++ k.key_id) ≡ 10 =
      omega (arith, length-append s.alg k.key_id, two, s.key_id_length) in
    let sig : take 64 (drop 10 blob) ≡ s.bytes =
      ap (λ b. take 64 (drop 10 b)) (sym (append_assoc s.alg k.key_id s.bytes))
      ∙ ap (take 64) (drop_first 10 (s.alg ++ k.key_id) s.bytes head_length)
      ∙ take_all 64 s.bytes s.bytes_length in
    rw
      (
        parse_minisig-minisig_file comment sig_line trusted global_line hc hs ht hg,
        first,
        (eq_iff (length blob) 74).1 sized,
        id,
        (eq_iff k.key_id k.key_id).1 refl,
        take_first 2 s.alg body two,
        signs,
        sig,
        s.over_message,
        last,
        (eq_iff (length s.global) 64).1 s.global_length,
        s.over_comment,
      )
      refl
