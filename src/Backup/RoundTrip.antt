-- ===== src/Backup/RoundTrip.antt =====
-- Archives that were made open again, and what opens was made with the same header.
use rdda.Common.{
  ℕ, ◌≤◌, ◌<◌, ◌^◌, false, [], ◌∷◌, ◌++◌, append_assoc, Option, none, some, Str, ◌≡◌, refl, arith,
  ◌==◌, nat_eq, str_eq, str_instance, length, take, drop, take-append, drop-append, length-append,
  if◌then◌else◌,
}
use rdda.Common.Results.{Result, ok, err, >>=-eq-ok}
use rdda.Verify.{Bytes}
use rdda.Backup
use rdda.Backup.{
  lift_cipher, opened, empty_passphrase, magic, format_ver, Header, Aead, Primitives, marshal,
  parse_header, header_len, salt_len, nonce_len, encrypt, decrypt, default_header, derive_key,
  append_uint32, uint32,
}

-- A header whose fields are in the widths of the source's types.
pub record IsSized (h : Header) : Type 0 where
  pub time : h.time < 2 ^ 32
  pub memory : h.memory < 2 ^ 32
  pub salt : length h.salt ≡ salt_len
  pub nonce : length h.nonce ≡ nonce_len

take_first : (n : ℕ) (xs ys : Bytes) → length xs ≡ n → take n (xs ++ ys) ≡ xs
take_first n xs ys e = rw (← e) (take-append xs ys)

drop_first : (n : ℕ) (xs ys : Bytes) → length xs ≡ n → drop n (xs ++ ys) ≡ ys
drop_first n xs ys e = rw (← e) (drop-append xs ys)

uint32-append : (n : ℕ) (rest : Bytes) → n < 2 ^ 32 → uint32 (append_uint32 n rest) ≡ n
uint32-append n rest h = omega arith

length-marshal : (h : Header) → IsSized h → length (marshal h) ≡ header_len
unfolding marshal
length-marshal h s = omega (arith, length-append h.salt h.nonce, s.salt, s.nonce)

-- The fields are read from where they were written; `rest` is what follows the fixed part.
read_fields :
    (h : Header) (rest : Bytes)
    → IsSized h
    → 40 ≤ length rest
    → take salt_len rest ≡ h.salt
    → take nonce_len (drop salt_len rest) ≡ h.nonce
    → parse_header
        (magic ++ (format_ver ∷ append_uint32 h.time (append_uint32 h.memory (h.threads ∷ rest))))
      ≡ ok h
unfolding parse_header str_eq
read_fields h rest sized long salt nonce =
    ground (
      arith,
      salt,
      nonce,
      uint32-append h.time [] sized.time,
      uint32-append h.memory [] sized.memory,
    )

-- Reading a header that was written gives it back, whatever follows it.
pub parse_header-marshal :
    (h : Header) (body : Bytes) → IsSized h → parse_header (marshal h ++ body) ≡ ok h
unfolding marshal
parse_header-marshal h body s =
    read_fields h ((h.salt ++ h.nonce) ++ body) s
      (omega (
        arith,
        length-append (h.salt ++ h.nonce) body,
        length-append h.salt h.nonce,
        s.salt,
        s.nonce,
      ))
      (rw (append_assoc h.salt h.nonce body) (take_first salt_len h.salt (h.nonce ++ body) s.salt))
      (rw (append_assoc h.salt h.nonce body) (
        rw (drop_first salt_len h.salt (h.nonce ++ body) s.salt)
          (take_first nonce_len h.nonce body s.nonce)))

default_header-IsSized :
    (salt nonce : Bytes)
    → length salt ≡ salt_len
    → length nonce ≡ nonce_len
    → IsSized (default_header salt nonce)
default_header-IsSized salt nonce hs hn = record {
  time = omega arith;
  memory = omega arith;
  salt = hs;
  nonce = hn;
}

guarded :
    (passphrase : Str) (archive : Bytes) (h : Header)
    → (if passphrase == [] then err empty_passphrase else parse_header archive) ≡ ok h
    → parse_header archive ≡ ok h
guarded passphrase archive h e = ground arith

lift_cipher-ok : (r : Result Str Aead) {a : Aead} → lift_cipher r ≡ ok a → r ≡ ok a
unfolding lift_cipher
lift_cipher-ok (ok b) e = cc
lift_cipher-ok (err x) e = cc

opened-some : (o : Option Bytes) {b : Bytes} → opened o ≡ ok b → o ≡ some b
unfolding opened
opened-some (some c) e = cc
opened-some none e = cc

-- What Open and Seal of the cipher for one key promise.
pub record IsAead (aead : Aead) : Type 0 where
  pub opens :
      (nonce plaintext ad : Bytes)
      → aead.unseal nonce (aead.seal nonce plaintext ad) ad ≡ some plaintext
  pub only_sealed :
      (nonce ciphertext plaintext ad : Bytes)
      → aead.unseal nonce ciphertext ad ≡ some plaintext
      → ciphertext ≡ aead.seal nonce plaintext ad

module _ (crypto : Primitives)
    (sound : (key : Bytes) (aead : Aead) → crypto.new_x key ≡ ok aead → IsAead aead) where
  -- Where each cipher opens what it has sealed: with a passphrase that is not empty, random bytes of the
  -- right lengths, and a cipher for the derived key, an archive is made, and the same passphrase gets
  -- the plaintext back from it.
  pub decrypt-encrypt :
      (salt nonce : Bytes) (passphrase : Str) (plaintext : Bytes) (aead : Aead)
      → length salt ≡ salt_len
      → length nonce ≡ nonce_len
      → (passphrase == []) ≡ false
      → crypto.new_x (derive_key crypto passphrase (default_header salt nonce)) ≡ ok aead
      → (archive : Bytes) × (encrypt crypto (ok salt) (ok nonce) passphrase plaintext ≡ ok archive)
        × (decrypt crypto passphrase archive ≡ ok plaintext)
  unfolding encrypt decrypt
  decrypt-encrypt salt nonce passphrase plaintext aead hs hn hp hk =
      let h = default_header salt nonce in
      let sized = default_header-IsSized salt nonce hs hn in
      let body = aead.seal nonce plaintext (marshal h) in
      (
        marshal h ++ body,
        rw (hp, hk) refl,
        rw
            (
              hp,
              parse_header-marshal h body sized,
              hk,
              take_first header_len (marshal h) body (length-marshal h sized),
              drop_first header_len (marshal h) body (length-marshal h sized),
              (sound _ aead hk).opens nonce plaintext (marshal h),
            )
            refl,
      )

  -- Where each cipher opens only what it has sealed: an archive opens only if its body is the sealing of
  -- what it gives, with the whole of its first 58 bytes as the associated data, under the key that its
  -- own header and the passphrase derive.
  pub decrypt_sealed :
      (passphrase : Str) (archive plaintext : Bytes)
      → decrypt crypto passphrase archive ≡ ok plaintext
      → (h : Header) × (aead : Aead) × (parse_header archive ≡ ok h)
        × (crypto.new_x (derive_key crypto passphrase h) ≡ ok aead)
        × (drop header_len archive ≡ aead.seal h.nonce plaintext (take header_len archive))
  unfolding decrypt
  decrypt_sealed passphrase archive plaintext opens =
      let (h, parsed, rest) = >>=-eq-ok _ _ opens in
      let (sane, checked, keyed) = >>=-eq-ok (Backup.derivable h) _ rest in
      let (aead, made, unsealed) = >>=-eq-ok _ _ keyed in
      let cipher = lift_cipher-ok _ made in
      (
        h,
        aead,
        guarded passphrase archive h parsed,
        cipher,
        (sound _ aead cipher).only_sealed _ _ _ _ (opened-some _ unsealed),
      )
