-- ===== src/Routing/Examples.antt =====
-- An RU node with a rule-set and an allowed domain, asked where a private address and a domain go.
use rdda.Common.{
  Bool, true, false, [], ◌∷◌, none, some, Str, codes, str_instance, ◌==◌, ◌≡◌, refl, str_eq,
  trim_space, if◌then◌else◌,
}
use rdda.Common.Results.{Result, ok}
use rdda.Json.{Json}
use rdda.State.Config.{Config}
use rdda.State.Config.Examples.{eu}
use rdda.Singboxconf.Nodes.{render_ru}
use rdda.Routing.{Net, GeoIpMatcher, Decision, evaluate}
use rdda.Routing.Rendered.{meant, evaluate-render_ru}

abbrev ru : Config
ru = record eu {
  geoip_path = codes "/etc/rdda/geoip-ru.srs";
  intl_allow_domains = codes "example.org" ∷ [];
}

-- Two addresses, the first of them private.
abbrev two_addresses : Net Bool
two_addresses = record {
  parse_ip = λ s.
      if s == codes "10.0.0.1"
      then some true
      else if s == codes "203.0.113.7"
      then some false
      else none;
  is_private = λ ip. ip;
  is_loopback = λ ip. false;
  is_link_local_unicast = λ ip. false;
  is_link_local_multicast = λ ip. false;
}

abbrev in_russia : GeoIpMatcher
in_russia = some (λ path ip. (ip == codes "203.0.113.7", true))

abbrev only_document : Bool → Result Str Json
only_document b = ok (render_ru ru [])

evaluate-render_ru_example :
    (d : Decision) × (evaluate two_addresses in_russia only_document true (codes " 203.0.113.7")
      ≡ ok d)
    × (d.outbound
        ≡ meant two_addresses in_russia ru
            (two_addresses.parse_ip (trim_space (codes " 203.0.113.7")))
            (trim_space (codes " 203.0.113.7")))
unfolding str_eq trim_space
evaluate-render_ru_example =
    evaluate-render_ru two_addresses in_russia only_document true ru [] (codes " 203.0.113.7") refl
      refl
