-- ===== src/Verify/Soundness.antt =====
-- What a verified signature means.
use rdda.Common.{
  Bool, true, false, ◌++◌, Option, none, some, Str, ◌==◌, str_instance, nat_eq, ◌≡◌, refl, eq_iff,
  length, utf8,
}
use rdda.Common.Results.{ok, >>=-eq-ok}
use rdda.Common.Base64.{base64_decode}
use rdda.Verify.{
  Bytes, Crypto, VerifyError, PublicKey, slice, decoded, SignatureFile, parse_minisig,
  signed_message, require, verify,
}

-- A signature file by this key over this content: the blob and the global signature of its lines.
pub record Authentic (crypto : Crypto) (k : PublicKey) (content : Bytes) (minisig : Str)
    : Type 0 where
  pub file : SignatureFile
  pub blob : Bytes
  pub message : Bytes
  pub global : Bytes
  pub parsed : parse_minisig minisig ≡ ok file
  pub blob_of : base64_decode file.sig_line ≡ some blob
  pub blob_length : length blob ≡ 74
  pub same_key : slice 2 8 blob ≡ k.key_id
  pub signs : signed_message crypto (slice 0 2 blob) content ≡ ok message
  pub content_signed : crypto.ed25519_verify k.key message (slice 10 64 blob) ≡ true
  pub global_of : base64_decode file.global_line ≡ some global
  pub global_length : length global ≡ 64
  pub comment_signed :
      crypto.ed25519_verify k.key (slice 10 64 blob ++ utf8 file.trusted_comment) global ≡ true

decoded-ok : (e : VerifyError) (o : Option Bytes) {b : Bytes} → decoded e o ≡ ok b → o ≡ some b
unfolding decoded
decoded-ok e none h = cc
decoded-ok e (some c) h = cc

require-ok : (b : Bool) (e : VerifyError) {u : Unit {0}} → require b e ≡ ok u → b ≡ true
require-ok true e h = refl
require-ok false e h = cc

-- What Verify accepts: the four lines parse, the blob has 74 bytes and this key's id, its signature holds
-- for the content or, prehashed, for its hash, and the global signature binds the trusted comment to it.
pub verify_sound :
    (crypto : Crypto) (k : PublicKey) (content : Bytes) (minisig : Str)
    → verify crypto k content minisig ≡ ok tt
    → Authentic crypto k content minisig
unfolding verify
verify_sound crypto k content minisig h =
    let (file, parsed, h1) = >>=-eq-ok (parse_minisig minisig) _ h in
    let (blob, blob_of, h2) =
      >>=-eq-ok (decoded VerifyError.sig_base64 (base64_decode file.sig_line)) _ h1 in
    let (u1, sized, h3) =
      >>=-eq-ok (require (length blob == 74) (VerifyError.sig_length (length blob))) _ h2 in
    let (u2, own, h4) =
      >>=-eq-ok (require (slice 2 8 blob == k.key_id) VerifyError.sig_key_id) _ h3 in
    let (message, signs, h5) = >>=-eq-ok (signed_message crypto (slice 0 2 blob) content) _ h4 in
    let (u3, valid, h6) =
      >>=-eq-ok
        (require (crypto.ed25519_verify k.key message (slice 10 64 blob)) VerifyError.sig_invalid) _
        h5 in
    let (global, global_of, h7) =
      >>=-eq-ok (decoded VerifyError.global_base64 (base64_decode file.global_line)) _ h6 in
    let (u4, gsized, h8) =
      >>=-eq-ok (require (length global == 64) (VerifyError.global_length (length global))) _ h7 in
    record {
      file = file;
      blob = blob;
      message = message;
      global = global;
      parsed = parsed;
      blob_of = decoded-ok _ (base64_decode file.sig_line) blob_of;
      blob_length = (eq_iff (length blob) 74).0 (require-ok (length blob == 74) _ sized);
      same_key =
          (eq_iff (slice 2 8 blob) k.key_id).0 (require-ok (slice 2 8 blob == k.key_id) _ own);
      signs = signs;
      content_signed = require-ok (crypto.ed25519_verify k.key message (slice 10 64 blob)) _ valid;
      global_of = decoded-ok _ (base64_decode file.global_line) global_of;
      global_length = (eq_iff (length global) 64).0 (require-ok (length global == 64) _ gsized);
      comment_signed = require-ok _ _ h8;
    }
