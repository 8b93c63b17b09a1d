-- ===== src/Backup.antt =====
-- internal/backup/crypto.go: the header of an archive, and sealing and opening it. Argon2 and
-- XChaCha20-Poly1305 are arguments, and so is what the random number generator answers.
pub mod RoundTrip
pub mod Restore
mod Examples
use rdda.Common.{
  ◌||◌, ℕ, ◌+◌, ◌*◌, ◌/◌, ◌%◌, ◌^◌, Bool, true, false, not, List, [], ◌∷◌, ◌++◌, Option, none, some,
  Str, codes, ◌==◌, nat_eq, str_instance, length, take, drop, get_or, ltb, if◌then◌else◌,
}
use rdda.Common.Results.{Result, ok, err, ◌>>=◌}
use rdda.Verify.{Bytes, slice}

pub data BackupError : Type 0 where
  key_panic empty_passphrase too_short bad_magic wrong_or_corrupt : BackupError
  unsupported_version : ℕ → BackupError
  random_failed cipher_failed : Str → BackupError

-- chacha20poly1305.NewX gives a cipher for a key; Open fails on what Seal has not made.
pub record Aead : Type 0 where
  pub seal : Bytes → Bytes → Bytes → Bytes
  pub unseal : Bytes → Bytes → Bytes → Option Bytes

pub record Primitives : Type 0 where
  pub argon2_id_key : Str → Bytes → ℕ → ℕ → ℕ → Bytes
  pub new_x : Bytes → Result Str Aead

abbrev pub magic : Bytes
magic = codes "RDDABAK1"

abbrev pub format_ver : ℕ
format_ver = 1

abbrev pub salt_len : ℕ
salt_len = 16

abbrev pub nonce_len : ℕ
nonce_len = 24

abbrev pub header_len : ℕ
header_len = 58

pub record Header : Type 0 where
  pub time : ℕ
  pub memory : ℕ
  pub threads : ℕ
  pub salt : Bytes
  pub nonce : Bytes

-- binary.BigEndian.AppendUint32 and Uint32.
abbrev pub append_uint32 : ℕ → Bytes → Bytes
append_uint32 n rest = n / 2 ^ 24 % 256 ∷ n / 2 ^ 16 % 256 ∷ n / 2 ^ 8 % 256 ∷ n % 256 ∷ rest

abbrev pub uint32 : Bytes → ℕ
uint32 b = ((get_or b 0 0 * 256 + get_or b 1 0) * 256 + get_or b 2 0) * 256 + get_or b 3 0

unfoldable pub marshal : Header → Bytes
marshal h =
    magic
    ++ (format_ver ∷ append_uint32 h.time (append_uint32 h.memory (h.threads ∷ h.salt ++ h.nonce)))

unfoldable pub parse_header : Bytes → Result BackupError Header
parse_header b =
    if ltb (length b) header_len
    then err too_short
    else if not (take 8 b == magic)
    then err bad_magic
    else if not (get_or b 8 0 == format_ver)
    then err (unsupported_version (get_or b 8 0))
    else ok (record {
      time = uint32 (slice 9 4 b);
      memory = uint32 (slice 13 4 b);
      threads = get_or b 17 0;
      salt = slice 18 salt_len b;
      nonce = slice 34 nonce_len b;
    })

lift_random : Result Str Bytes → Result BackupError Bytes
lift_random (ok b) = ok b
lift_random (err e) = err (random_failed e)

lift_cipher : Result Str Aead → Result BackupError Aead
lift_cipher (ok a) = ok a
lift_cipher (err e) = err (cipher_failed e)

opened : Option Bytes → Result BackupError Bytes
opened (some b) = ok b
opened none = err wrong_or_corrupt

abbrev pub default_header : Bytes → Bytes → Header
default_header salt nonce = record {
  time = 2;
  memory = 64 * 1024;
  threads = 4;
  salt = salt;
  nonce = nonce;
}

-- argon2.IDKey panics without a round or a thread, and that ends the program.
derivable : Header → Result BackupError (Unit {0})
derivable h = if h.time == 0 || h.threads == 0 then err key_panic else ok tt

module _ (crypto : Primitives) where
  pub derive_key : Str → Header → Bytes
  derive_key passphrase h = crypto.argon2_id_key passphrase h.salt h.time h.memory h.threads

  -- The header is the associated data.
  pub encrypt : Result Str Bytes → Result Str Bytes → Str → Bytes → Result BackupError Bytes
  unfolding lift_random lift_cipher
  encrypt random_salt random_nonce passphrase plaintext = do
    salt ← if passphrase == [] then err empty_passphrase else lift_random random_salt
    nonce ← lift_random random_nonce
    aead ← lift_cipher (crypto.new_x (derive_key passphrase (default_header salt nonce)))
    ok (
        marshal (default_header salt nonce)
        ++ aead.seal nonce plaintext (marshal (default_header salt nonce)))

  pub decrypt : Str → Bytes → Result BackupError Bytes
  unfolding lift_cipher opened derivable
  decrypt passphrase archive = do
    h ← if passphrase == [] then err empty_passphrase else parse_header archive
    sane ← derivable h
    aead ← lift_cipher (crypto.new_x (derive_key passphrase h))
    opened (aead.unseal h.nonce (drop header_len archive) (take header_len archive))
