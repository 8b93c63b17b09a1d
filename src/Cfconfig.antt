-- ===== src/Cfconfig.antt =====
-- internal/cfconfig/cfconfig.go: cloudflared's ingress, as a tree; printing it as YAML is an argument.
use rdda.Common.{ℕ, not, [], ◌∷◌, ◌++◌, Str, codes, ◌==◌, str_instance, ◌||◌, if◌then◌else◌}
use rdda.Common.Format.{decimal}
use rdda.Common.Results.{Result, err}
use rdda.Json.{Json, text, array, object, obj, items}
use rdda.State.Config.{Config, cf_enabled}

localhost : ℕ → Json
localhost port = text (codes "http://localhost:" ++ decimal port)

rule : Str → Json → Json
rule hostname service =
    object (obj ((codes "hostname", text hostname) ∷ (codes "service", service) ∷ []))

document : Config → ℕ → Json
unfolding localhost rule
document c sub_port = object (
    obj (
      (codes "tunnel", text c.cloudflare.tunnel_id)
      ∷ (codes "credentials-file", text c.cloudflare.credentials_file)
      ∷ (
        codes "ingress",
        array (
            items (
              rule c.cloudflare.tunnel_hostname (localhost c.eu_port)
              ∷ rule c.cloudflare.sub_hostname (localhost sub_port)
              ∷ object (obj ((codes "service", text (codes "http_status:404")) ∷ []))
              ∷ [])),
      )
      ∷ []))

-- Render
unfoldable pub render : (Json → Result Str Str) → Config → ℕ → Result Str Str
unfolding document
render print c sub_port =
    if not (cf_enabled c) || c.cloudflare.tunnel_id == []
    then err (codes "cloudflare not configured (tunnel_hostname and tunnel_id required)")
    else print (document c sub_port)
