-- ===== src/Tunnelprobe.antt =====
-- internal/tunnelprobe/tunnelprobe.go: the client that the probe runs. Deriving the public key is an
-- argument.
pub mod Rendered
pub mod Probing
mod Examples
use rdda.Common.{
  ℕ, zero, suc, ◌+◌, ◌*◌, ◌/◌, Bool, true, false, not, List, [], ◌∷◌, ◌++◌, Option, none, some, Str,
  codes, ◌==◌, nat_eq, str_instance, ◌&&◌, if◌then◌else◌, ltb, leb,
}
use rdda.Common.Format.{decimal}
use rdda.Common.Results.{Result, ok, err, ◌>>=◌}
use rdda.Health.{ReachStatus, reach_ok, reach_blocked, reach_unknown, ProbeResult}
use rdda.Json.{
  ℤ, pos, negsuc, Json, null, boolean, number, text, array, object, obj, items, Items, no_items,
  item, Members, no_members, get,
}
use rdda.Singboxconf.{on, field, utls, vless, direct}

-- The fields of an inbound that are read.
pub record Inbound : Type 0 where
  pub listen_port : ℤ
  pub users : List Str
  pub server_name : Str
  pub enabled : Bool
  pub private_key : Str
  pub short_ids : List Str

abbrev mismatch : Str
mismatch = codes "json: cannot unmarshal"

-- encoding/json into a struct's field, found by its exact name: null leaves the zero value, another type is
-- an error.
decode_members : Json → Result Str Members
decode_members null = ok no_members
decode_members (object m) = ok m
decode_members j = err mismatch

decode_items : Json → Result Str Items
decode_items null = ok no_items
decode_items (array js) = ok js
decode_items j = err mismatch

decode_bool : Json → Result Str Bool
decode_bool null = ok false
decode_bool (boolean b) = ok b
decode_bool j = err mismatch

decode_str : Json → Result Str Str
decode_str null = ok []
decode_str (text s) = ok s
decode_str j = err mismatch

decode_int : Json → Result Str ℤ
decode_int null = ok (pos 0)
decode_int (number n) = ok n
decode_int j = err mismatch

decode_strs : Items → Result Str (List Str)
unfolding decode_str
decode_strs no_items = ok []
decode_strs (item j js) = do s ← decode_str j; ss ← decode_strs js; ok (s ∷ ss)

decode_users : Items → Result Str (List Str)
unfolding decode_members decode_str
decode_users no_items = ok []
decode_users (item j js) = do
  m ← decode_members j
  uuid ← decode_str (get (codes "uuid") m)
  rest ← decode_users js
  ok (uuid ∷ rest)

decode_inbound : Json → Result Str Inbound
unfolding decode_members decode_items decode_bool decode_str decode_int decode_strs decode_users
decode_inbound j = do
  m ← decode_members j
  port ← decode_int (get (codes "listen_port") m)
  us ← decode_items (get (codes "users") m)
  users ← decode_users us
  tls ← decode_members (get (codes "tls") m)
  name ← decode_str (get (codes "server_name") tls)
  reality ← decode_members (get (codes "reality") tls)
  enabled ← decode_bool (get (codes "enabled") reality)
  key ← decode_str (get (codes "private_key") reality)
  ids ← decode_items (get (codes "short_id") reality)
  short_ids ← decode_strs ids
  ok (record {
    listen_port = port;
    users = users;
    server_name = name;
    enabled = enabled;
    private_key = key;
    short_ids = short_ids;
  })

decode_inbounds : Items → Result Str (List Inbound)
unfolding decode_inbound
decode_inbounds no_items = ok []
decode_inbounds (item j js) = do r ← decode_inbound j; rs ← decode_inbounds js; ok (r ∷ rs)

decode_doc : Json → Result Str (List Inbound)
unfolding decode_members decode_items decode_inbounds
decode_doc j = do
  top ← decode_members j
  inbounds ← decode_items (get (codes "inbounds") top)
  decode_inbounds inbounds

reality_inbound : List Inbound → Result Str Inbound
reality_inbound [] = err (codes "no REALITY inbound in singbox.json")
reality_inbound (r ∷ rs) =
    if r.enabled then ok r else err (codes "no REALITY inbound in singbox.json")

first_user : List Str → Result Str Str
first_user [] = err (codes "no client uuid in singbox.json")
first_user (uuid ∷ us) =
    if uuid == [] then err (codes "no client uuid in singbox.json") else ok uuid

derived : Result Str Str → Result Str Str
derived (ok key) = ok key
derived (err x) = err (codes "derive public key: " ++ x)

pub first_id : List Str → Str
first_id [] = []
first_id (s ∷ ss) = s

-- The client that the probe runs: a SOCKS inbound, and an outbound to the node's own inbound.
pub client_doc : ℕ → ℤ → Str → Str → Str → Str → Json
client_doc socks_port port uuid server_name key short_id = object (
    obj (
      (codes "log", object (obj (field (codes "level") (codes "error") ∷ [])))
      ∷ (
        codes "inbounds",
        array (
            items (
              object (
                obj (
                  field (codes "type") (codes "socks")
                  ∷ field (codes "listen") (codes "127.0.0.1")
                  ∷ (codes "listen_port", number (pos socks_port))
                  ∷ []))
              ∷ [])),
      )
      ∷ (
        codes "outbounds",
        array (
            items (
              object (
                obj (
                  vless (codes "proxy")
                  ++ (field (codes "server") (codes "127.0.0.1")
                      ∷ (codes "server_port", number port)
                      ∷ field (codes "uuid") uuid
                      ∷ (
                        codes "tls",
                        object (
                            obj (
                              on
                              ∷ field (codes "server_name") server_name
                              ∷ utls (codes "firefox")
                              ∷ (
                                codes "reality",
                                object (
                                    obj (
                                      on
                                      ∷ field (codes "public_key") key
                                      ∷ field (codes "short_id") short_id
                                      ∷ [])),
                              )
                              ∷ [])),
                      )
                      ∷ (
                        codes "multiplex",
                        object (
                            obj (
                              on
                              ∷ field (codes "protocol") (codes "h2mux")
                              ∷ (codes "max_streams", number (pos 8))
                              ∷ [])),
                      )
                      ∷ [])))
              ∷ direct
              ∷ [])),
      )
      ∷ []))

-- buildClientConfig, on the document that the text parses to: the client and its uuid.
unfoldable pub build_client_config :
    (Str → Result Str Str) → Result Str Json → ℕ → Result Str (Json × Str)
unfolding decode_doc reality_inbound first_user derived first_id
build_client_config public_from_private parsed socks_port = do
  j ← parsed
  inbounds ← decode_doc j
  r ← reality_inbound inbounds
  uuid ← first_user r.users
  key ← derived (public_from_private r.private_key)
  ok (client_doc socks_port r.listen_port uuid r.server_name key (first_id r.short_ids), uuid)
