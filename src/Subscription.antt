-- ===== src/Subscription.antt =====
-- internal/subscription/subscription.go: the client's profile. Printing and parsing JSON text are
-- arguments.
pub mod Blocking
mod Examples
use rdda.Common.{ℕ, true, List, [], ◌∷◌, ◌++◌, Str, codes, ◌==◌, str_instance, get_or, utf8}
use rdda.Common.Results.{Result, ok, err, ◌>>=◌}
use rdda.Json.{pos, Json, null, boolean, number, text, array, object, obj, items}
use rdda.State.Config.{Config, fp, profile_title_or, rule_order}
use rdda.State.Clients.{Client, fingerprint_or}
use rdda.Singboxconf.{on, field, multiplex, log, direct, reality_out, vless, server}

-- The object of ClientOutbound.
pub client_outbound : Config → Client → Json
client_outbound c client = object (
    obj (
      vless (codes "rdda")
      ++ server c.ru_host c.ru_port client.uuid
      ++ (reality_out c.client_reality.server_name (fingerprint_or client (fp c))
            c.client_reality.public_key c.client_reality.short_ids
          ∷ multiplex c
          ∷ [])))

abbrev to_block : Str × Json
to_block = field (codes "outbound") (codes "block")

-- The three rules that drop QUIC, UDP to port 443, and BitTorrent.
abbrev pub block_rules : List Json
block_rules =
    object (obj (field (codes "protocol") (codes "quic") ∷ to_block ∷ []))
    ∷ object (
        obj (
          field (codes "network") (codes "udp") ∷ (codes "port", number (pos 443)) ∷ to_block ∷ []))
    ∷ object (obj (field (codes "protocol") (codes "bittorrent") ∷ to_block ∷ []))
    ∷ []

-- `for dst, src := range order { out[dst] = base[src] }`
pub picked : List Json → List ℕ → List Json
picked base [] = []
picked base (i ∷ is) = get_or base i null ∷ picked base is

pub ordered_block_rules : Config → List Json
unfolding picked
ordered_block_rules c = picked block_rules (rule_order c 3)

abbrev private_direct : Json
private_direct =
    object
      (obj ((codes "ip_is_private", boolean true) ∷ field (codes "outbound") (codes "direct") ∷ []))

-- DNS over HTTPS to a raw address, through the tunnel.
abbrev dns : Str × Json
dns = (
  codes "dns",
  object (
      obj (
        (
          codes "servers",
          array (
              items (
                object (
                  obj (
                    field (codes "tag") (codes "remote")
                    ∷ field (codes "address") (codes "https://1.1.1.1/dns-query")
                    ∷ field (codes "detour") (codes "rdda")
                    ∷ field (codes "strategy") (codes "prefer_ipv4")
                    ∷ []))
                ∷ [])),
        )
        ∷ field (codes "final") (codes "remote")
        ∷ field (codes "strategy") (codes "prefer_ipv4")
        ∷ [])),
)

abbrev block : Json
block =
    object (obj (field (codes "type") (codes "block") ∷ field (codes "tag") (codes "block") ∷ []))

-- The rules of the route: private addresses first, then what is dropped.
pub client_rules : Config → List Json
client_rules c = private_direct ∷ ordered_block_rules c

abbrev route : Config → Str × Json
route c = (
  codes "route",
  object (
      obj (
        (codes "rules", array (items (client_rules c)))
        ∷ field (codes "final") (codes "rdda")
        ∷ [])),
)

abbrev experimental : Str × Json
experimental =
    (codes "experimental", object (obj ((codes "cache_file", object (obj (on ∷ []))) ∷ [])))

document : Config → Json → Json
document c out = object (
    obj (
      log
      ∷ dns
      ∷ (codes "outbounds", array (items (out ∷ direct ∷ block ∷ [])))
      ∷ route c
      ∷ experimental
      ∷ []))

-- ImportHeader
pub import_header : Str → Str
import_header title =
    (codes "// profile-title: " ++ title) ++ codes "\n// profile-update-interval: 24\n"

-- ProfileTitleHeader; `encode` is the standard base64.
pub profile_title_header : (List ℕ → Str) → Str → Str
profile_title_header encode title = codes "base64:" ++ encode (utf8 title)

-- The outbound is printed and read back before it becomes a part of the document.
module _ (indented compact : Json → Result Str Str) (parse : Str → Result Str Json) where
  pub build_doc : Config → Client → Result Str Json
  unfolding document
  build_doc c client = do
    printed ← indented (client_outbound c client)
    out ← parse printed
    ok (document c out)

  pub build : Config → Client → Result Str Str
  build c client = do doc ← build_doc c client; indented doc

  pub qr_payload : Config → Client → Result Str Str
  qr_payload c client = do
    doc ← build_doc c client
    body ← compact doc
    ok (import_header (profile_title_or c) ++ body)
