-- ===== src/Singboxconf.antt =====
-- internal/singboxconf/render.go: the sing-box configurations of the client, the RU node and the EU node,
-- as JSON trees.
pub mod Nodes
use rdda.Common.{
  ℕ, Bool, true, false, List, [], ◌∷◌, ◌++◌, Option, none, some, Str, codes, ◌==◌, nat_eq,
  str_instance, map, if◌then◌else◌,
}
use rdda.Json.{ℤ, pos, Json, boolean, number, text, array, object, obj, items, texts, atoi}
use rdda.State.Config.{Config, cf_enabled, fp, mux_protocol, mux_streams}

-- strings.Cut at a colon.
cut_colon : Str → Option (Str × Str)
cut_colon [] = none
cut_colon (c ∷ s) =
    let rest = cut_colon s in
    if c == b':' then some ([], s) else elim rest [ none ↦ none | some (a, b) ↦ some (c ∷ a, b) ]

with_port : Str → ℤ → Option ℤ → Str × ℤ
with_port h default none = (h, default)
with_port h default (some n) = (h, n)

split_cut : Str → ℤ → Option (Str × Str) → Str × ℤ
unfolding with_port
split_cut target default none = (target, default)
split_cut target default (some (h, p)) = with_port h default (atoi p)

-- splitHostPort
unfoldable pub split_host_port : Str → ℤ → Str × ℤ
unfolding cut_colon split_cut
split_host_port target default = split_cut target default (cut_colon target)

abbrev pub first_or_empty : List Str → Str
first_or_empty [] = []
first_or_empty (s ∷ ss) = s

abbrev pub on : Str × Json
on = (codes "enabled", boolean true)

abbrev pub field : Str → Str → Str × Json
field k v = (k, text v)

abbrev pub multiplex : Config → Str × Json
multiplex c = (
  codes "multiplex",
  object (
      obj (
        on
        ∷ field (codes "protocol") (mux_protocol c)
        ∷ (codes "max_streams", number (pos (mux_streams c)))
        ∷ [])),
)

abbrev pub plain_multiplex : Str × Json
plain_multiplex = (codes "multiplex", object (obj (on ∷ [])))

abbrev pub log : Str × Json
log = (codes "log", object (obj (field (codes "level") (codes "warn") ∷ [])))

abbrev pub utls : Str → Str × Json
utls fingerprint = (codes "utls", object (obj (on ∷ field (codes "fingerprint") fingerprint ∷ [])))

abbrev pub direct : Json
direct =
    object (obj (field (codes "type") (codes "direct") ∷ field (codes "tag") (codes "direct") ∷ []))

-- The tls object of an outbound to a REALITY hop.
abbrev pub reality_out : Str → Str → Str → List Str → Str × Json
reality_out server fingerprint key ids = (
  codes "tls",
  object (
      obj (
        on
        ∷ field (codes "server_name") server
        ∷ utls fingerprint
        ∷ (
          codes "reality",
          object (
              obj (
                on
                ∷ field (codes "public_key") key
                ∷ field (codes "short_id") (first_or_empty ids)
                ∷ [])),
        )
        ∷ [])),
)

-- The tls object of an inbound that terminates REALITY.
abbrev pub reality_in : Str → Str × ℤ → Str → List Str → Str × Json
reality_in server (host, port) key ids = (
  codes "tls",
  object (
      obj (
        on
        ∷ field (codes "server_name") server
        ∷ (
          codes "reality",
          object (
              obj (
                on
                ∷ (
                  codes "handshake",
                  object
                      (obj (field (codes "server") host ∷ (codes "server_port", number port) ∷ [])),
                )
                ∷ field (codes "private_key") key
                ∷ (codes "short_id", array (texts ids))
                ∷ [])),
        )
        ∷ [])),
)

abbrev pub vless : Str → List (Str × Json)
vless tag = field (codes "type") (codes "vless") ∷ field (codes "tag") tag ∷ []

abbrev pub server : Str → ℕ → Str → List (Str × Json)
server host port uuid =
    field (codes "server") host
    ∷ (codes "server_port", number (pos port))
    ∷ field (codes "uuid") uuid
    ∷ []

abbrev pub listen : Str → ℕ → List (Str × Json)
listen address port = field (codes "listen") address ∷ (codes "listen_port", number (pos port)) ∷ []

abbrev pub user : Str → Json
user uuid = object (obj (field (codes "uuid") uuid ∷ []))

-- RenderClient
pub render_client : Config → Str → ℕ → Json
render_client c uuid socks_port = object (
    obj (
      log
      ∷ (
        codes "inbounds",
        array (
            items (
              object (
                obj (
                  field (codes "type") (codes "socks")
                  ∷ field (codes "tag") (codes "socks-in")
                  ∷ listen (codes "127.0.0.1") socks_port))
              ∷ [])),
      )
      ∷ (
        codes "outbounds",
        array (
            items (
              object (
                obj (
                  vless (codes "proxy")
                  ++ server c.ru_host c.ru_port uuid
                  ++ (reality_out c.client_reality.server_name (fp c) c.client_reality.public_key
                        c.client_reality.short_ids
                      ∷ multiplex c
                      ∷ [])))
              ∷ direct
              ∷ [])),
      )
      ∷ []))
