-- ===== src/Subserver/Examples.antt =====
-- A node with one client, asked by its RU node, by a stranger and by the client.
use rdda.Common.{
  length, ◌≤◌, arith, has_prefix, str_eq, drop_prefix, has_suffix, ap, sym, [], ◌∷◌, none, some,
  Str, codes, ◌≡◌, refl, true, utf8,
}
use rdda.Common.Results.{ok}
use rdda.Json.{null}
use rdda.Pull
use rdda.Common.Assoc.{lookup}
use rdda.Common.Sorting.{sort}
use rdda.Ratelimit.{allow, current, bucket_at, new}
use rdda.State.Beat.{absent}
use rdda.State.Beat.Examples.{beat}
use rdda.State.Clients.{Client}
use rdda.State.Config.{Config}
use rdda.State.Config.Examples.{eu}
use rdda.State.Store.Examples.{same_text, ann, one, one-IsValid}
use rdda.State.Store.{list_clients, read_entries, is_listed, read_entry}
use rdda.Subserver.{
  Request, Node, Env, control_limiter, client_ip, limited, ru_config, same_bytes, control_token,
  sub, serve,
}
use rdda.Subserver.Guarded.{Granted, Rendered, ru_config-Granted}
use rdda.Subserver.Beats.{Effect, serve-Effect}
use rdda.Subserver.Pulling.{pull_serves}
use rdda.Subserver.Profiles.{Served, sub-Served}

-- A printer that writes the same text for every document; a file's text is a client.
abbrev answering : Env Client
answering = record {
  split_host = λ addr. some (codes "203.0.113.7");
  encode = λ bytes. codes "UkREQQ==";
  indented = λ j. ok (codes "{}");
  compact = λ j. ok (codes "{}");
  parse = λ s. ok null;
  read_client = same_text;
  read_report = λ bytes. ok beat.report;
  print_beat = λ h. ok ann;
  disk = record { write = none; torn = absent; rename = none };
}

abbrev node : Node Client
node = record {
  limiter = control_limiter;
  config = ok eu;
  clients = ok one;
  beat = record { current = absent; temporary = absent };
}

abbrev ask : Str → Str → Str → Request
ask method path authorization = record {
  method = method;
  path = path;
  remote_addr = codes "127.0.0.1:40000";
  connecting_ip = codes "203.0.113.7";
  authorization = authorization;
  body = codes "{}";
}

abbrev poll : Request
poll = ask (codes "GET") (codes "/ru/config") (codes "Bearer token")

abbrev report : Request
report = ask (codes "POST") (codes "/ru/health") (codes "Bearer token")

poll_reply : (serve answering poll 0 node).0 ≡ record {
  status = 200;
  headers = (codes "Content-Type", codes "application/json") ∷ [];
  body = codes "{}";
}
unfolding serve has_prefix str_eq limited allow current bucket_at lookup new ru_config same_bytes
    utf8 control_token drop_prefix list_clients read_entries is_listed has_suffix read_entry sort
poll_reply = refl

poll_served : (serve answering poll 0 node).0.status ≡ 200
poll_served = ap (λ q. q.status) poll_reply

-- A wrong token, and none.
poll_refused :
    (serve answering
      (ask (codes "GET") (codes "/ru/config") (codes "Bearer tokem"))
      0
      node).0.status
    ≡ 401
unfolding serve has_prefix str_eq limited allow current bucket_at lookup new ru_config same_bytes
    utf8 control_token drop_prefix
poll_refused = refl

ru_config-Granted_example :
    (cfg : Config) × Granted answering poll 0 node cfg
    × Rendered answering poll cfg node (serve answering poll 0 node).0
ru_config-Granted_example = ru_config-Granted answering poll 0 node refl poll_served

serve-Effect_example : Effect answering report 0 node (serve answering report 0 node).1
serve-Effect_example = serve-Effect answering report 0 node

sub-Served_example : Served answering node one (codes "anns") (sub answering (codes "anns") node)
sub-Served_example = sub-Served answering node one (codes "anns") refl one-IsValid

abbrev pulling : Pull.Options
pulling = record {
  url = codes "https://sub.example.com/ru/config";
  token = codes "token";
  has_reload = true;
}

abbrev path_works : Pull.Env
path_works = record {
  build = λ url. none;
  fetch = λ request. ok (record { status = 200; body = ok (codes "{}") });
  decode_object = λ body. none;
  create_temp = none;
  write = none;
  close = none;
  chmod = none;
  rename = none;
  reload = none;
}

listed_one : list_clients same_text (ok one) ≡ ok (ann ∷ [])
unfolding list_clients read_entries is_listed has_suffix read_entry sort str_eq
listed_one = refl

first_within : (allow node.limiter (client_ip answering poll) 0).0 ≡ true
unfolding allow current bucket_at lookup new client_ip str_eq
first_within = refl

small : length (utf8 (serve answering poll 0 node).0.body) ≤ Pull.body_limit
unfolding utf8
small = rw poll_reply (omega arith)

pull_serves_example :
    Pull.run path_works pulling (record { config = none; reloads = 0 })
    ≡ (none, record { config = some (utf8 (codes "{}")); reloads = 1 })
unfolding Pull.request_of utf8
pull_serves_example =
    pull_serves answering node eu (ann ∷ []) (codes "{}") path_works pulling poll 0
      (record { config = none; reloads = 0 })
      (record { loaded = refl; enabled = λ p. cc; listed = listed_one; printed = refl })
      (record { path = refl; header = refl; within = first_within }) refl
      (record {
        built = refl;
        answer =
            ap (λ q. ok (record { status = q.status; body = ok (utf8 q.body) })) (sym poll_reply);
        fits = small;
        object = refl;
        temp = refl;
        write = refl;
        close = refl;
        chmod = refl;
        rename = refl;
        reload = refl;
      })
