-- ===== src/Backup/Examples.antt =====
-- An archive under a cipher that leaves the text as it is, which keeps the promises asked of one.
use mathlib.Core.Path.{subst}
use rdda.Common.{◌++◌}
use rdda.Common.{some, Str, codes, str_instance, ◌≡◌, refl, take, drop, str_eq}
use rdda.Common.Results.{Result, ok}
use rdda.Verify.{Bytes}
use rdda.Backup.{
  Aead, Primitives, Header, header_len, encrypt, decrypt, derive_key, default_header, marshal,
  parse_header,
}
use rdda.Backup.RoundTrip.{IsAead, decrypt-encrypt, decrypt_sealed}

abbrev pub plain_text : Aead
plain_text = record { seal = λ nonce p ad. p; unseal = λ nonce c ad. some c }

plain_text-IsAead : IsAead plain_text
plain_text-IsAead = record { opens = λ nonce p ad. refl; only_sealed = λ nonce c p ad e. cc }

abbrev pub primitives : Primitives
primitives = record { argon2_id_key = λ passphrase salt t m p. salt; new_x = λ key. ok plain_text }

made_by : (aead : Aead) → ◌≡◌ {A = Result Str Aead} (ok plain_text) (ok aead) → plain_text ≡ aead
made_by aead e = cc

sound : (key : Bytes) (aead : Aead) → primitives.new_x key ≡ ok aead → IsAead aead
sound key aead e = subst IsAead (made_by aead e) plain_text-IsAead

abbrev pub salt : Bytes
salt = codes "0123456789abcdef"

abbrev pub nonce : Bytes
nonce = codes "0123456789abcdef01234567"

abbrev pub header : Header
header = default_header salt nonce

decrypt-encrypt_example :
    (archive : Bytes) × (encrypt primitives (ok salt) (ok nonce) (codes "secret") (codes "state")
      ≡ ok archive)
    × (decrypt primitives (codes "secret") archive ≡ ok (codes "state"))
unfolding str_eq
decrypt-encrypt_example =
    decrypt-encrypt primitives sound salt nonce (codes "secret") (codes "state") plain_text refl
      refl refl refl

abbrev pub archive : Bytes
archive = marshal header ++ codes "state"

decrypt_sealed_example :
    (h : Header) × (aead : Aead) × (parse_header archive ≡ ok h)
    × (primitives.new_x (derive_key primitives (codes "secret") h) ≡ ok aead)
    × (drop header_len archive ≡ aead.seal h.nonce (codes "state") (take header_len archive))
unfolding str_eq decrypt parse_header marshal
decrypt_sealed_example =
    decrypt_sealed primitives sound (codes "secret") archive (codes "state") refl
