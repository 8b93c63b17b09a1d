-- ===== src/Selfupdate/Gate.antt =====
-- Update up to the first write: the tag, the key, the download, its signature and its checksum. Check,
-- fetchRelease and sumFor. SHA-256 and the JSON decoder of the release document are arguments.
pub mod Trust
mod Examples
use rdda.Common.{
  Bool, true, false, not, List, [], ◌∷◌, ◌++◌, Option, none, some, Str, codes, ◌==◌, str_instance,
  nat_eq, ◌&&◌, split_on, fields, utf8, to_lower, if◌then◌else◌,
}
use rdda.Common.Results.{Result, ok, err, ◌>>=◌}
use rdda.Verify.{Bytes, Crypto, PublicKey, VerifyError, verify}
use rdda.Selfupdate.Errors.{
  UpdateError, resolve_failed, fetch_failed, key_failed, signature, no_checksum, mismatch,
}
use rdda.Selfupdate.Disk.{Node, Env}
use rdda.Selfupdate.Install.{install}

pub record Download : Type 0 where
  pub bin : Bytes
  pub sums : Str
  pub sig : Str

-- The Updater's fields that do not touch the node.
pub record Updater : Type 0 where
  pub arch : Str
  pub current : Str
  pub resolve_tag : Result Str Str
  pub fetch : Str → Str → Result Str Download
  pub load_key : Result VerifyError PublicKey
  pub crypto : Crypto
  pub sha256_hex : Bytes → Str

-- resolveLatestTag, on the fetched document; `tag_name` decodes it.
pub resolve_latest_tag : (Bytes → Result Str Str) → Result Str Bytes → Result Str Str
resolve_latest_tag tag_name body = do
  b ← body
  tag ← tag_name b
  if tag == [] then err (codes "no tag_name in latest release") else ok tag

release_base : Str → Str
release_base tag = codes "https://github.com/KoRORland/rdda/releases/download/" ++ tag

-- fetchRelease: the three assets in order; a missing signature is an error. `text_of` is the text of bytes.
pub fetch_release : (Str → Result Str Bytes) → (Bytes → Str) → Str → Str → Result Str Download
unfolding release_base
fetch_release get text_of tag arch = do
  bin ← get (release_base tag ++ codes "/rdda-linux-" ++ arch)
  sums ← get (release_base tag ++ codes "/SHA256SUMS")
  sig ← get (release_base tag ++ codes "/SHA256SUMS.minisig")
  ok (record { bin = bin; sums = text_of sums; sig = text_of sig })

-- A line's digest, if the line has two fields and the second is the name.
line_sum : Str → List Str → Option Str
line_sum name (sum ∷ file ∷ []) = if file == name then some sum else none
line_sum name _ = none

sum_in : Str → List Str → Str
unfolding line_sum
sum_in name [] = []
sum_in name (l ∷ ls) = elim (line_sum name (fields l)) [ some sum ↦ sum | none ↦ sum_in name ls ]

-- sumFor
pub sum_for : Str → Str → Str
unfolding sum_in
sum_for sums name = sum_in name (split_on 10 sums)

-- strings.EqualFold; one side is hex, where it compares ASCII letters without their case.
pub equal_fold : Str → Str → Bool
equal_fold a b = to_lower a == to_lower b

pub asset_name : Str → Str
asset_name arch = codes "rdda-linux-" ++ arch

lift {ℓ κ} : {E : Type ℓ} {A : Type κ} → (E → UpdateError) → Result E A → Result UpdateError A
lift f (ok a) = ok a
lift f (err e) = err (f e)

checksum : Updater → Download → Result UpdateError Bytes
checksum u d =
    let sum = sum_for d.sums (asset_name u.arch) in
    let got = u.sha256_hex d.bin in
    if sum == []
    then err (no_checksum u.arch)
    else if equal_fold got sum
    then ok d.bin
    else err (mismatch got sum)

-- The checks before any write, in the source's order: key, download, signature, digest.
pub gate : Updater → Str → Result UpdateError Bytes
unfolding lift checksum
gate u to = do
  key ← lift key_failed u.load_key
  d ← lift fetch_failed (u.fetch to u.arch)
  authentic ← lift signature (verify u.crypto key (utf8 d.sums) d.sig)
  checksum u d

pub record Outcome : Type 0 where
  pub from : Str
  pub to : Str
  pub failure : Option UpdateError

-- Check
pub check : Updater → Str × Str × Bool × Option Str
check u = elim u.resolve_tag [
  | err x ↦ (u.current, [], false, some x)
  | ok latest ↦ (u.current, latest, not (latest == u.current), none)
]

after_gate : Updater → Env → Str → Result UpdateError Bytes → Node → Outcome × Node
after_gate u e to (err x) n = (record { from = u.current; to = to; failure = some x }, n)
after_gate u e to (ok bin) n =
    let (failure, n1) = install e to bin n in
    (record { from = u.current; to = to; failure = failure }, n1)

after_resolve : Updater → Env → Result Str Str → Node → Outcome × Node
after_resolve u e (err x) n =
    (record { from = u.current; to = []; failure = some (resolve_failed x) }, n)
after_resolve u e (ok to) n =
    if to == u.current
    then (record { from = u.current; to = u.current; failure = none }, n)
    else after_gate u e to (gate u to) n

-- Update
pub update : Updater → Env → Node → Outcome × Node
update u e n = after_resolve u e u.resolve_tag n
