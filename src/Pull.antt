-- ===== src/Pull.antt =====
-- internal/pull/pull.go: fetching the RU node's configuration from the EU node and installing it. The HTTP
-- exchange, the JSON decoder and the file system's answers are arguments.
pub mod FailClosed
mod Examples
use rdda.Common.{
  ℕ, suc, ◌*◌, ◌^◌, Bool, not, List, [], ◌∷◌, ◌++◌, Option, none, some, Str, codes, ◌==◌, nat_eq,
  take, if◌then◌else◌,
}
use rdda.Common.Results.{Result, ok, err, ◌>>=◌}
use rdda.Verify.{Bytes}

-- A request as it leaves the node: the URL and the Authorization header.
pub record Request : Type 0 where
  pub url : Str
  pub authorization : Str

-- A response: its status, and what reading its body gives.
pub record Response : Type 0 where
  pub status : ℕ
  pub body : Result Str Bytes

pub record Options : Type 0 where
  pub url : Str
  pub token : Str
  pub has_reload : Bool

pub data PullError : Type 0 where
  build_failed fetch_failed read_failed not_object temp_failed write_failed close_failed
        chmod_failed rename_failed reload_failed :
      Str → PullError
  unexpected_status : ℕ → PullError

-- What the client, the decoder, the file system and the reload answer.
pub record Env : Type 0 where
  pub build : Str → Option Str
  pub fetch : Request → Result Str Response
  pub decode_object : Bytes → Option Str
  pub create_temp : Option Str
  pub write : Option Str
  pub close : Option Str
  pub chmod : Option Str
  pub rename : Option Str
  pub reload : Option Str

-- The configuration at opts.Dest, and how often sing-box was reloaded.
pub record RuNode : Type 0 where
  pub config : Option Bytes
  pub reloads : ℕ

abbrev pub body_limit : ℕ
body_limit = 4 * 2 ^ 20

unfoldable pub request_of : Options → Request
request_of o = record { url = o.url; authorization = codes "Bearer " ++ o.token }

abbrev pub stop : (Str → PullError) → Option Str → Result PullError (Unit {0})
stop f none = ok tt
stop f (some x) = err (f x)

abbrev pub lift {ℓ} : {A : Type ℓ} → (Str → PullError) → Result Str A → Result PullError A
lift f (ok a) = ok a
lift f (err x) = err (f x)

abbrev pub status_ok : ℕ → Result PullError (Unit {0})
status_ok s = if s == 200 then ok tt else err (unexpected_status s)

-- io.LimitReader cuts the body.
unfoldable pub fetched : Env → Options → Result PullError Bytes
unfolding request_of
fetched e o = do
  built ← stop build_failed (e.build o.url)
  resp ← lift fetch_failed (e.fetch (request_of o))
  good ← status_ok resp.status
  body ← lift read_failed resp.body
  object ← stop not_object (e.decode_object (take body_limit body))
  ok (take body_limit body)

-- The temporary file, up to and with the rename over the destination.
unfoldable pub staged : Env → Result PullError (Unit {0})
staged e = do
  temp ← stop temp_failed e.create_temp
  written ← stop write_failed e.write
  closed ← stop close_failed e.close
  mode ← stop chmod_failed e.chmod
  stop rename_failed e.rename

reloaded : Env → Options → RuNode → Option PullError × RuNode
reloaded e o n =
    if o.has_reload
    then (
      elim e.reload [ none ↦ none | some x ↦ some (reload_failed x) ],
      record n { reloads = suc n.reloads },
    )
    else (none, n)

swapped : Env → Options → Bytes → Result PullError (Unit {0}) → RuNode → Option PullError × RuNode
unfolding reloaded
swapped e o body (err x) n = (some x, n)
swapped e o body (ok u) n = reloaded e o (record n { config = some body })

installed : Env → Options → Result PullError Bytes → RuNode → Option PullError × RuNode
unfolding swapped
installed e o (err x) n = (some x, n)
installed e o (ok body) n = swapped e o body (staged e) n

-- Run
unfoldable pub run : Env → Options → RuNode → Option PullError × RuNode
unfolding installed
run e o n = installed e o (fetched e o) n
