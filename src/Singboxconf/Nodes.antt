-- ===== src/Singboxconf/Nodes.antt =====
-- RenderRU and RenderEU: the configurations of the two nodes.
use rdda.Common.{ℕ, true, List, [], ◌∷◌, ◌++◌, Str, codes, ◌==◌, str_instance, if◌then◌else◌}
use rdda.Json.{pos, Json, boolean, array, object, obj, items, texts}
use rdda.State.Config.{Config, cf_enabled, fp}
use rdda.State.Clients.{Client}
use rdda.Singboxconf.{
  on, field, multiplex, plain_multiplex, log, utls, direct, reality_out, reality_in, vless, server,
  listen, user, split_host_port,
}

-- The HTTPS port, the default of a REALITY target.
abbrev https : ℕ
https = 443

unfoldable pub users_of : List Client → List Json
users_of [] = []
users_of (c ∷ cs) = user c.uuid ∷ users_of cs

ru_inbound : Config → List Client → Json
unfolding users_of
ru_inbound c clients = object (
    obj (
      vless (codes "in")
      ++ listen (codes "0.0.0.0") c.ru_port
      ++ ((codes "users", array (items (users_of clients)))
          ∷ reality_in c.client_reality.server_name
              (split_host_port c.client_reality.target (pos https)) c.client_reality.private_key
              c.client_reality.short_ids
          ∷ plain_multiplex
          ∷ [])))

-- The outbound to the EU node behind Cloudflare: WebSocket, with the Host in a headers object.
cf_outbound : Config → List (Str × Json)
cf_outbound c =
    let host = c.cloudflare.tunnel_hostname in
    vless (codes "proxy")
    ++ server host https c.tunnel_uuid
    ++ ((codes "tls", object (obj (on ∷ field (codes "server_name") host ∷ utls (fp c) ∷ [])))
        ∷ (
          codes "transport",
          object (
              obj (
                field (codes "type") (codes "ws")
                ∷ field (codes "path") c.tunnel_path
                ∷ (codes "headers", object (obj (field (codes "Host") host ∷ [])))
                ∷ [])),
        )
        ∷ multiplex c
        ∷ [])

reality_outbound : Config → List (Str × Json)
reality_outbound c =
    vless (codes "proxy")
    ++ server c.eu_host c.eu_port c.tunnel_uuid
    ++ (reality_out c.tunnel_reality.server_name (fp c) c.tunnel_reality.public_key
          c.tunnel_reality.short_ids
        ∷ multiplex c
        ∷ [])

ru_proxy : Config → Json
unfolding cf_outbound reality_outbound
ru_proxy c = object (obj (if cf_enabled c then cf_outbound c else reality_outbound c))

abbrev pub rule_outbound : Str × Json
rule_outbound = field (codes "outbound") (codes "direct")

abbrev pub private_rule : Json
private_rule = object (obj ((codes "ip_is_private", boolean true) ∷ rule_outbound ∷ []))

abbrev pub geoip_rule : Json
geoip_rule = object (obj (field (codes "rule_set") (codes "geoip-ru") ∷ rule_outbound ∷ []))

abbrev pub domain_rule : List Str → Json
domain_rule domains =
    object (obj ((codes "domain_suffix", array (texts domains)) ∷ rule_outbound ∷ []))

abbrev pub allowed : List Str → List Json
allowed [] = []
allowed (d ∷ ds) = domain_rule (d ∷ ds) ∷ []

-- The rules, in order: private addresses, the RU rule-set where its path is set, the allowed domains.
unfoldable pub ru_rules : Config → List Json
ru_rules c =
    private_rule ∷ (if c.geoip_path == [] then [] else geoip_rule ∷ [])
    ++ allowed c.intl_allow_domains

abbrev pub local_rule_set : Str → Json
local_rule_set path = object (
    obj (
      field (codes "type") (codes "local")
      ∷ field (codes "tag") (codes "geoip-ru")
      ∷ field (codes "format") (codes "binary")
      ∷ field (codes "path") path
      ∷ []))

unfoldable pub ru_route : Config → Json
unfolding ru_rules
ru_route c =
    let rules : Str × Json = (codes "rules", array (items (ru_rules c))) in
    object (
      obj (
        rules
        ∷ field (codes "final") (codes "proxy")
        ∷ (if c.geoip_path == []
            then []
            else (codes "rule_set", array (items (local_rule_set c.geoip_path ∷ []))) ∷ [])))

-- RenderRU
unfoldable pub render_ru : Config → List Client → Json
unfolding ru_inbound ru_proxy
render_ru c clients = object (
    obj (
      log
      ∷ (codes "inbounds", array (items (ru_inbound c clients ∷ [])))
      ∷ (codes "outbounds", array (items (ru_proxy c ∷ direct ∷ [])))
      ∷ (codes "route", ru_route c)
      ∷ []))

eu_users : Config → Str × Json
eu_users c = (codes "users", array (items (user c.tunnel_uuid ∷ [])))

-- The EU inbound: plain WebSocket on the loopback behind Cloudflare, else REALITY.
eu_inbound : Config → List (Str × Json)
unfolding eu_users
eu_inbound c =
    if cf_enabled c
    then vless (codes "in")
      ++ listen (codes "127.0.0.1") c.eu_port
      ++ (eu_users c
          ∷ (
            codes "transport",
            object
                (obj (field (codes "type") (codes "ws") ∷ field (codes "path") c.tunnel_path ∷ [])),
          )
          ∷ plain_multiplex
          ∷ [])
    else vless (codes "in")
      ++ listen (codes "0.0.0.0") c.eu_port
      ++ (eu_users c
          ∷ reality_in c.tunnel_reality.server_name
              (split_host_port c.tunnel_reality.target (pos https)) c.tunnel_reality.private_key
              c.tunnel_reality.short_ids
          ∷ plain_multiplex
          ∷ [])

-- RenderEU
unfoldable pub render_eu : Config → Json
unfolding eu_inbound
render_eu c = object (
    obj (
      log
      ∷ (codes "inbounds", array (items (object (obj (eu_inbound c)) ∷ [])))
      ∷ (codes "outbounds", array (items (direct ∷ [])))
      ∷ []))
