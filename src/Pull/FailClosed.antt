-- ===== src/Pull/FailClosed.antt =====
-- A pull never leaves the node with anything but its old configuration or a fetched one.
use rdda.Common.{
  ℕ, true, Option, none, some, ◌≡◌, refl, ◌⊎◌, inl, inr, arith, take, Str, is_some, nat_eq,
}
use rdda.Common.Results.{Result, ok, err, >>=-eq-ok}
use rdda.Verify.{Bytes}
use rdda.Pull.{
  Env, Options, RuNode, Response, PullError, build_failed, fetch_failed, read_failed, not_object,
  stop, lift, status_ok, body_limit, request_of, fetched, staged, reloaded, swapped, installed, run,
}

-- What the fetched configuration is: the body of a 200 answer to the authorised request, within the
-- limit, which the decoder into an object takes.
pub record Fetched (e : Env) (o : Options) (body : Bytes) : Type 0 where
  pub response : Response
  pub whole : Bytes
  pub answered : e.fetch (request_of o) ≡ ok response
  pub good : response.status ≡ 200
  pub read : response.body ≡ ok whole
  pub limited : body ≡ take body_limit whole
  pub object : e.decode_object (take body_limit whole) ≡ none

-- How a pull ends: an error and a node as it was, or the fetched configuration in place.
abbrev pub Ended : Env → Options → RuNode → Option PullError → RuNode → Type 0
Ended e o n failure n' =
    ((is_some failure ≡ true) × (n' ≡ n))
    ⊎ ((body : Bytes) × Fetched e o body × (n'.config ≡ some body) × (staged e ≡ ok tt))

stop-ok : (f : Str → PullError) (x : Option Str) → stop f x ≡ ok tt → x ≡ none
stop-ok f none h = refl
stop-ok f (some x) h = cc

lift-ok {ℓ} :
    {A : Type ℓ} (f : Str → PullError) (r : Result Str A) {a : A} → lift f r ≡ ok a → r ≡ ok a
lift-ok f (ok b) h = cc
lift-ok f (err x) h = cc

status_ok-200 : (s : ℕ) → status_ok s ≡ ok tt → s ≡ 200
status_ok-200 s h = ground arith

same_body : {a b : Bytes} → ◌≡◌ {A = Result PullError Bytes} (ok a) (ok b) → b ≡ a
same_body h = cc

fetched-Fetched : (e : Env) (o : Options) (body : Bytes) → fetched e o ≡ ok body → Fetched e o body
unfolding fetched
fetched-Fetched e o body h =
    let (u, built, r1) = >>=-eq-ok (stop build_failed (e.build o.url)) _ h in
    let (resp, answered, r2) = >>=-eq-ok (lift fetch_failed (e.fetch (request_of o))) _ r1 in
    let (v, good, r3) = >>=-eq-ok (status_ok resp.status) _ r2 in
    let (whole, read, r4) = >>=-eq-ok (lift read_failed resp.body) _ r3 in
    let (w, object, same) =
      >>=-eq-ok (stop not_object (e.decode_object (take body_limit whole))) _ r4 in
    record {
      response = resp;
      whole = whole;
      answered = lift-ok _ _ answered;
      good = status_ok-200 _ good;
      read = lift-ok _ _ read;
      limited = same_body same;
      object = stop-ok _ _ object;
    }

reloaded_config : (e : Env) (o : Options) (n : RuNode) → (reloaded e o n).1.config ≡ n.config
unfolding reloaded
reloaded_config e o n = ground arith

swapped-Ended :
    (e : Env) (o : Options) (body : Bytes) (s : Result PullError (Unit {0})) (n : RuNode)
    → staged e ≡ s
    → Fetched e o body
    → Ended e o n (swapped e o body s n).0 (swapped e o body s n).1
unfolding swapped
swapped-Ended e o body (err x) n h f = inl (refl, refl)
swapped-Ended e o body (ok u) n h f =
    inr (body, f, reloaded_config e o (record n { config = some body }), h)

installed-Ended :
    (e : Env) (o : Options) (r : Result PullError Bytes) (n : RuNode)
    → fetched e o ≡ r
    → Ended e o n (installed e o r n).0 (installed e o r n).1
unfolding installed
installed-Ended e o (err x) n h = inl (refl, refl)
installed-Ended e o (ok body) n h =
    swapped-Ended e o body (staged e) n refl (fetched-Fetched e o body h)

-- However a pull ends, either it reports an error and the node is as it was, or the configuration is the
-- body, cut at the limit, of a 200 answer to the request with the bearer token; the decoder into a JSON
-- object takes that body, and every step of writing it has succeeded.
pub pull-Ended : (e : Env) (o : Options) (n : RuNode) → Ended e o n (run e o n).0 (run e o n).1
unfolding run
pull-Ended e o n = installed-Ended e o (fetched e o) n refl
