-- ===== src/Subserver.antt =====
-- internal/subserver/server.go: the EU node's HTTP handlers. The paths are those that http.ServeMux does
-- not redirect. What encoding/json, encoding/base64, net.SplitHostPort and the disk answer are arguments; the
-- clock is read once for a request.
pub mod Guarded
pub mod Beats
pub mod Pulling
pub mod Profiles
mod Examples
use rdda.Common.{
  ℕ, ◌*◌, Bool, true, false, not, List, [], ◌∷◌, ◌++◌, Option, none, some, Str, codes, ◌==◌, nat_eq,
  str_instance, if◌then◌else◌, has_prefix, drop_prefix, utf8, take,
}
use rdda.Common.Results.{Result, ok, err}
use rdda.Health.{Report}
use rdda.Json.{Json}
use rdda.Ratelimit
use rdda.Ratelimit.{Limiter, allow}
use rdda.Singboxconf.Nodes.{render_ru}
use rdda.State.Beat.{RuHealth, BeatFiles, BeatEnv, save_ru_health}
use rdda.State.Clients.{Client}
use rdda.State.Config.{Config, profile_title_or}
use rdda.State.Store.{Dir, list_clients, client_by_token}
use rdda.Subscription.{build, import_header, profile_title_header}
use rdda.Verify.{Bytes}

-- A request. A header that is absent reads as the empty text.
pub record Request : Type 0 where
  pub method : Str
  pub path : Str
  pub remote_addr : Str
  pub connecting_ip : Str
  pub authorization : Str
  pub body : Bytes

-- A response: the status, the headers that the handler sets, and the body.
pub record Reply : Type 0 where
  pub status : ℕ
  pub headers : List (Str × Str)
  pub body : Str

-- What the handlers reach: the limiter of the control channel, config.yaml as LoadConfig reads it, the
-- clients' directory, and the file of the last beat.
pub record Node (Text : Type 0) : Type 0 where
  pub limiter : Limiter
  pub config : Result Str Config
  pub clients : Result Str (Dir Text)
  pub beat : BeatFiles Text

-- The standard library's answers.
pub record Env (Text : Type 0) : Type 0 where
  pub split_host : Str → Option Str
  pub encode : Bytes → Str
  pub indented : Json → Result Str Str
  pub compact : Json → Result Str Str
  pub parse : Str → Result Str Json
  pub read_client : Text → Result Str Client
  pub read_report : Bytes → Result Str Report
  pub print_beat : RuHealth → Result Str Text
  pub disk : BeatEnv Text

-- New(30, 1), made with the handler.
abbrev pub control_limiter : Limiter
control_limiter = Ratelimit.new 30 1

-- http.Error and http.NotFound.
abbrev pub http_error : ℕ → Str → Reply
http_error status message = record { status = status; headers = []; body = message ++ codes "\n" }

abbrev pub not_found : Reply
not_found = http_error 404 (codes "404 page not found")

abbrev pub fail : Reply
fail = http_error 500 (codes "internal error")

abbrev pub unauthorized : Reply
unauthorized = http_error 401 (codes "unauthorized")

-- controlToken
unfoldable pub control_token : Request → Str
control_token r =
    if has_prefix r.authorization (codes "Bearer ")
    then drop_prefix r.authorization (codes "Bearer ")
    else []

-- subtle.ConstantTimeCompare on the bytes of two texts, as a test.
unfoldable pub same_bytes : Str → Str → Bool
same_bytes a b = utf8 a == utf8 b

abbrev pub too_many : Reply
too_many = record {
  status = 429;
  headers = (codes "Retry-After", codes "60") ∷ [];
  body = codes "too many requests\n";
}

module _ {Text : Type 0} (e : Env Text) where
  peer_ip : Option Str → Str → Str
  peer_ip none addr = addr
  peer_ip (some host) addr = host

  -- clientIP
  pub client_ip : Request → Str
  unfolding peer_ip
  client_ip r =
      if not (r.connecting_ip == [])
      then r.connecting_ip
      else peer_ip (e.split_host r.remote_addr) r.remote_addr

  -- limited: the bucket is charged before the handler runs.
  unfoldable pub limited :
      (Node Text → Reply × Node Text) → Request → ℕ → Node Text → Reply × Node Text
  limited next r now n =
      let (allowed, l) = allow n.limiter (client_ip r) now in
      let after = next (record n { limiter = l }) in
      if allowed then after else (too_many, record n { limiter = l })

  profile : Config → Str → Reply
  profile cfg body = record {
    status = 200;
    headers =
        (codes "Profile-Title", profile_title_header e.encode (profile_title_or cfg))
        ∷ (codes "Profile-Update-Interval", codes "24")
        ∷ (codes "Content-Type", codes "application/json")
        ∷ [];
    body = import_header (profile_title_or cfg) ++ body;
  }

  sub_built : Config → Result Str Str → Reply
  unfolding profile
  sub_built cfg (err x) = fail
  sub_built cfg (ok body) = profile cfg body

  sub_config : Client → Result Str Config → Reply
  unfolding sub_built
  sub_config c (err x) = fail
  sub_config c (ok cfg) = sub_built cfg (build e.indented e.compact e.parse cfg c)

  sub_client : Result Str (Option Client) → Result Str Config → Reply
  unfolding sub_config
  sub_client (err x) config = fail
  sub_client (ok none) config = not_found
  sub_client (ok (some c)) config = sub_config c config

  -- The handler of /sub/, on the path after that prefix.
  unfoldable pub sub : Str → Node Text → Reply
  unfolding sub_client
  sub token n =
      if token == []
      then not_found
      else sub_client (client_by_token e.read_client n.clients token) n.config

  -- The two handlers of the control channel start alike: the configuration, the token that turns the
  -- channel on, and the request's token.
  pub checked :
      (Config → Node Text → Reply × Node Text)
      → Request
      → Result Str Config
      → Node Text
      → Reply × Node Text
  checked next r (err x) n = (fail, n)
  checked next r (ok cfg) n =
      let granted = next cfg n in
      if cfg.pull_token == []
      then (not_found, n)
      else if same_bytes (control_token r) cfg.pull_token
      then granted
      else (unauthorized, n)

  rendered : Result Str Str → Reply
  rendered (err x) = fail
  rendered (ok body) = record {
    status = 200;
    headers = (codes "Content-Type", codes "application/json") ∷ [];
    body = body;
  }

  ru_listed : Config → Result Str (List Client) → Reply
  unfolding rendered
  ru_listed cfg (err x) = fail
  ru_listed cfg (ok cs) = rendered (e.indented (render_ru cfg cs))

  -- The handler of /ru/config, inside `limited`.
  unfoldable pub ru_config : Request → Node Text → Reply × Node Text
  unfolding checked ru_listed
  ru_config r n =
      checked (λ cfg m. (ru_listed cfg (list_clients e.read_client m.clients), m)) r n.config n

  saved : Option Str × BeatFiles Text → Node Text → Reply × Node Text
  saved (some x, files) n = (fail, record n { beat = files })
  saved (none, files) n =
      (record { status = 200; headers = []; body = [] }, record n { beat = files })

  decoded : ℕ → Result Str Report → Node Text → Reply × Node Text
  unfolding saved
  decoded now (err x) n = (http_error 400 (codes "bad request"), n)
  decoded now (ok rep) n =
      saved (save_ru_health e.disk e.print_beat (record { report = rep; received_at = now }) n.beat)
        n

  -- The handler of /ru/health, inside `limited`. MaxBytesReader lets 64 KiB of the body through.
  unfoldable pub ru_health : Request → ℕ → Node Text → Reply × Node Text
  unfolding checked decoded
  ru_health r now n =
      let beat =
        checked (λ cfg m. decoded now (e.read_report (take (64 * 1024) r.body)) m) r n.config n in
      if not (r.method == codes "POST")
      then (http_error 405 (codes "method not allowed"), n)
      else beat

  -- Handler
  unfoldable pub serve : Request → ℕ → Node Text → Reply × Node Text
  serve r now n =
      let config = limited (λ m. ru_config r m) r now n in
      let health = limited (λ m. ru_health r now m) r now n in
      if has_prefix r.path (codes "/sub/")
      then (sub (drop_prefix r.path (codes "/sub/")) n, n)
      else if r.path == codes "/ru/config"
      then config
      else if r.path == codes "/ru/health"
      then health
      else (not_found, n)
