-- ===== src/Routing/Rendered.antt =====
-- What Evaluate says of the configuration that RenderRU renders.
use rdda.Common.{
  Bool, true, false, not, inl, inr, List, [], ◌∷◌, ◌++◌, Option, none, some, Str, codes, ◌≡◌, refl,
  ap, ◌==◌, str_eq, str_instance, ◌&&◌, ◌||◌, if◌then◌else◌, trim_space, arith, Bool-cases, nat_eq,
}
use rdda.Common.Results.{Result, ok}
use rdda.Json.{Json, boolean, array, Members, obj, texts, get}
use rdda.State.Config.{Config}
use rdda.State.Clients.{Client}
use rdda.Singboxconf.{field}
use rdda.Singboxconf.Nodes.{rule_outbound, ru_rules, ru_route, render_ru}
use rdda.Routing.Document.{RouteDoc, decode_doc}
use rdda.Routing.{
  Net, GeoIpMatcher, Decision, is_private_ip, match_domain_suffix, evaluate, evaluate_doc, decide,
  walk, verdict, private_verdict, geoip_verdict, suffix_verdict, to_strings, strings_of, any_suffix,
  ask_matcher, rule_set_tag, srs_path, rule_set_verdict,
}

private_members : Members
private_members = obj ((codes "ip_is_private", boolean true) ∷ rule_outbound ∷ [])

-- The route that RenderRU renders.
abbrev allowed_members : List Str → List Members
allowed_members [] = []
allowed_members (d ∷ ds) =
    obj ((codes "domain_suffix", array (texts (d ∷ ds))) ∷ rule_outbound ∷ []) ∷ []

abbrev ru_doc : Bool → Str → List Str → RouteDoc
ru_doc no_geoip path domains = record {
  rules =
      obj ((codes "ip_is_private", boolean true) ∷ rule_outbound ∷ [])
        ∷ (if no_geoip
            then []
            else obj (field (codes "rule_set") (codes "geoip-ru") ∷ rule_outbound ∷ []) ∷ [])
      ++ allowed_members domains;
  final = codes "proxy";
  rule_set = if no_geoip then [] else (codes "geoip-ru", path) ∷ [];
}

decode_route :
    (c : Config) (clients : List Client) (ds : List Str)
    → c.intl_allow_domains ≡ ds
    → decode_doc (render_ru c clients) ≡ ok (ru_doc (c.geoip_path == []) c.geoip_path ds)
unfolding decode_doc render_ru ru_route ru_rules get str_eq
decode_route c clients [] e = elim (Bool-cases (c.geoip_path == [])) [
  | inl none_set ↦ rw (e, none_set) refl
  | inr set ↦ rw (e, set) refl
]
decode_route c clients (d ∷ ds) e = elim (Bool-cases (c.geoip_path == [])) [
  | inl none_set ↦ rw (e, none_set) refl
  | inr set ↦ rw (e, set) refl
]

both : Bool × Bool → Bool
both (a, b) = a && b

-- The rule-set is known, and the matcher has found the address in it.
pub geoip_hit : GeoIpMatcher → Str → Str → Bool
unfolding both
geoip_hit none path input = false
geoip_hit (some f) path input = not (path == []) && both (f path input)

abbrev pub direct_if : Bool → Str
direct_if b = if b then codes "direct" else codes "proxy"

strings_of-texts : (ds : List Str) → strings_of (texts ds) ≡ ds
unfolding strings_of
strings_of-texts [] = refl
strings_of-texts (d ∷ ds) = ap (λ r. d ∷ r) (strings_of-texts ds)

module _ {Ip : Type 0} (net : Net Ip) (geoip : GeoIpMatcher) where
  -- What the operator means: RU and private addresses go direct, and so do the allowed domains.
  pub meant : Config → Option Ip → Str → Str
  unfolding geoip_hit
  meant c none input = direct_if (match_domain_suffix input c.intl_allow_domains)
  meant c (some ip) input =
      direct_if (is_private_ip net (some ip) || geoip_hit geoip c.geoip_path input)

  walk-domain :
      (path input : Str) (b : Bool) (ds : List Str) (d : Decision)
      → d.input ≡ input
      → (walk net geoip
          (ru_doc b path ds).rule_set
          none
          (codes "proxy")
          0
          (ru_doc b path ds).rules
          d).outbound
        ≡ direct_if (match_domain_suffix input ds)
  unfolding walk verdict private_verdict geoip_verdict suffix_verdict is_private_ip to_strings get
      str_eq
  walk-domain path input true [] d e = unfold match_domain_suffix in unfold any_suffix in refl
  walk-domain path input false [] d e = unfold match_domain_suffix in unfold any_suffix in refl
  walk-domain path input true (s ∷ ss) d e = ground (arith, strings_of-texts ss, e)
  walk-domain path input false (s ∷ ss) d e = ground (arith, strings_of-texts ss, e)

walk-address :
    {Ip : Type 0} (net : Net Ip) (geoip : GeoIpMatcher) (path input : Str) (b : Bool)
    (ds : List Str) (d : Decision) (ip : Ip)
    → d.input ≡ input
    → (path == []) ≡ b
    → (walk net geoip
        (ru_doc b path ds).rule_set
        (some ip)
        (codes "proxy")
        0
        (ru_doc b path ds).rules
        d).outbound
      ≡ direct_if (is_private_ip net (some ip) || geoip_hit geoip path input)
unfolding walk verdict private_verdict geoip_verdict suffix_verdict get str_eq geoip_hit ask_matcher
    rule_set_tag srs_path rule_set_verdict both
walk-address net none path input true [] d ip e h = ground arith
walk-address net none path input false [] d ip e h = ground arith
walk-address net none path input true (s ∷ ss) d ip e h = ground arith
walk-address net none path input false (s ∷ ss) d ip e h = ground arith
walk-address net (some f) path input true [] d ip e h = ground arith
walk-address net (some f) path input false [] d ip e h = ground arith
walk-address net (some f) path input true (s ∷ ss) d ip e h = ground arith
walk-address net (some f) path input false (s ∷ ss) d ip e h = ground arith

module _ {Ip : Type 0} (net : Net Ip) (geoip : GeoIpMatcher) where
  decide-ru :
      (c : Config) (input : Str) (ip : Option Ip)
      → net.parse_ip input ≡ ip
      → (decide net geoip input
          (ru_doc (c.geoip_path == []) c.geoip_path c.intl_allow_domains)).outbound
        ≡ meant net geoip c ip input
  unfolding decide meant str_eq
  decide-ru c input none e =
      rw e
        (walk-domain net geoip c.geoip_path input (c.geoip_path == []) c.intl_allow_domains _ refl)
  decide-ru c input (some ip) e = rw e (
      walk-address net geoip c.geoip_path input (c.geoip_path == []) c.intl_allow_domains _ ip refl
        refl)

  -- On a text that parses to the configuration that RenderRU renders, Evaluate succeeds for every
  -- destination that is not blank, and its verdict is what the operator's settings mean: an address goes
  -- direct if it is private, or if the rule-set's path is set and the matcher surely has it, a domain if
  -- the allowed suffixes match it, and all else goes through the tunnel.
  pub evaluate-render_ru {ℓ} :
      {Text : Type ℓ} (parse : Text → Result Str Json) (config : Text) (c : Config)
      (clients : List Client) (input : Str)
      → parse config ≡ ok (render_ru c clients)
      → (trim_space input == []) ≡ false
      → (d : Decision) × (evaluate net geoip parse config input ≡ ok d)
        × (d.outbound ≡ meant net geoip c (net.parse_ip (trim_space input)) (trim_space input))
  unfolding evaluate evaluate_doc
  evaluate-render_ru parse config c clients input parsed filled = (
    decide net geoip (trim_space input)
        (ru_doc (c.geoip_path == []) c.geoip_path c.intl_allow_domains),
    rw (parsed, decode_route c clients c.intl_allow_domains refl, filled) refl,
    decide-ru c (trim_space input) (net.parse_ip (trim_space input)) refl,
  )
