-- ===== src/Selfupdate/Gate/Trust.antt =====
-- Nothing on the node changes unless the release was signed by the maintainer and its digest matches.
use mathlib.Core.Bool.{true≢false}
use rdda.Common.{
  true, [], some, Str, ◌==◌, str_instance, ◌≡◌, ◌≢◌, refl, sym, ◌∙◌, inl, inr, arith, eq_iff, utf8,
  Bool-cases,
}
use rdda.Common.Results.{Result, ok, err, >>=-eq-ok}
use rdda.Verify.{Bytes, PublicKey, VerifyError, verify}
use rdda.Selfupdate.Errors.{UpdateError, key_failed, fetch_failed, signature}
use rdda.Selfupdate.Disk.{Node, Env}
use rdda.Selfupdate.Disk.Laws.{content}
use rdda.Selfupdate.Install.Safety.{After, install-After}
use rdda.Selfupdate.Gate.{
  Download, Updater, sum_for, equal_fold, asset_name, lift, checksum, gate, Outcome, after_gate,
  after_resolve, update,
}

-- What the updater has established of a release's binary.
pub record Trusted (u : Updater) (to : Str) (bin : Bytes) : Type 0 where
  pub key : PublicKey
  pub download : Download
  pub key_loaded : u.load_key ≡ ok key
  pub fetched : u.fetch to u.arch ≡ ok download
  pub signed : verify u.crypto key (utf8 download.sums) download.sig ≡ ok tt
  pub listed : sum_for download.sums (asset_name u.arch) ≢ []
  pub digest : equal_fold (u.sha256_hex bin) (sum_for download.sums (asset_name u.arch)) ≡ true
  pub same : download.bin ≡ bin

lift-ok {ℓ κ} :
    {E : Type ℓ} {A : Type κ} (f : E → UpdateError) (r : Result E A) (a : A)
    → lift f r ≡ ok a
    → r ≡ ok a
unfolding lift
lift-ok f (ok b) a h = cc
lift-ok f (err e) a h = cc

checksum-ok :
    (u : Updater) (d : Download) (bin : Bytes)
    → checksum u d ≡ ok bin
    → (sum_for d.sums (asset_name u.arch) ≢ [])
      × (equal_fold (u.sha256_hex bin) (sum_for d.sums (asset_name u.arch)) ≡ true)
      × (d.bin ≡ bin)
unfolding checksum
checksum-ok u d bin h = ground (arith, eq_iff (sum_for d.sums (asset_name u.arch)) [])

gate-Trusted : (u : Updater) (to : Str) (bin : Bytes) → gate u to ≡ ok bin → Trusted u to bin
unfolding gate
gate-Trusted u to bin h =
    let (key, loaded, h1) = >>=-eq-ok (lift key_failed u.load_key) _ h in
    let (d, fetched, h2) = >>=-eq-ok (lift fetch_failed (u.fetch to u.arch)) _ h1 in
    let (authentic, signed, h3) =
      >>=-eq-ok (lift signature (verify u.crypto key (utf8 d.sums) d.sig)) _ h2 in
    let (listed, digest, same) = checksum-ok u d bin h3 in
    record {
      key = key;
      download = d;
      key_loaded = lift-ok key_failed u.load_key key loaded;
      fetched = lift-ok fetch_failed (u.fetch to u.arch) d fetched;
      signed = lift-ok signature (verify u.crypto key (utf8 d.sums) d.sig) authentic signed;
      listed = listed;
      digest = digest;
      same = same;
    }

-- What an update has come to: nothing has changed, or a trusted binary was handed to the installation,
-- which ended in one of the ways of `After`.
pub data Ended (u : Updater) (e : Env) (old : Bytes) (n : Node) (r : Outcome × Node) : Type 0 where
  untouched : r.1 ≡ n → Ended u e old n r
  attempted :
      (bin : Bytes)
      → Trusted u r.0.to bin
      → r.0.to ≢ u.current
      → After e r.0.to old bin r.0.failure r.1
      → Ended u e old n r

after_gate-Ended :
    (u : Updater) (e : Env) (to : Str) (old : Bytes) (n : Node)
    → content n.bin ≡ some old
    → to ≢ u.current
    → (g : Result UpdateError Bytes) → gate u to ≡ g
    → Ended u e old n (after_gate u e to g n)
unfolding after_gate
after_gate-Ended u e to old n b new (err x) h = untouched refl
after_gate-Ended u e to old n b new (ok bin) h =
    attempted bin (gate-Trusted u to bin h) new (install-After e to old bin n b)

after_resolve-Ended :
    (u : Updater) (e : Env) (old : Bytes) (n : Node) (r : Result Str Str)
    → content n.bin ≡ some old
    → Ended u e old n (after_resolve u e r n)
unfolding after_resolve
after_resolve-Ended u e old n (err x) b = untouched refl
after_resolve-Ended u e old n (ok to) b = elim (Bool-cases (to == u.current)) [
  | inl same ↦ rw same (untouched refl)
  | inr new ↦ rw new (
      after_gate-Ended u e to old n b (λ p. true≢false (sym ((eq_iff to u.current).1 p) ∙ new))
        (gate u to) refl)
]

-- The trust gate. An update either leaves the node exactly as it was, or it installs, under a tag other
-- than the running one, a binary whose checksum file was signed by the loaded key and lists the binary's
-- digest; what it then leaves is what the installation's outcome says.
pub update-Ended :
    (u : Updater) (e : Env) (old : Bytes) (n : Node)
    → content n.bin ≡ some old
    → Ended u e old n (update u e n)
unfolding update
update-Ended u e old n b = after_resolve-Ended u e old n u.resolve_tag b

-- Without a usable key, as with the placeholder in place of a real one, no update changes the node.
pub update-no_key :
    (u : Updater) (e : Env) (n : Node) (x : VerifyError) → u.load_key ≡ err x → (update u e n).1 ≡ n
unfolding update after_resolve after_gate gate lift
update-no_key u e n x h = ground arith
