-- ===== src/Routing.antt =====
-- internal/routing/routing.go: where a rendered RU configuration sends one destination. net.ParseIP and
-- the address classes of package net are a record of functions; the trace is one constructor for each of
-- the source's messages.
pub mod Document
pub mod Rendered
mod Examples
use rdda.Common.{
  ℕ, zero, suc, ◌+◌, Bool, true, false, not, List, [], ◌∷◌, ◌++◌, Option, none, some, Str, codes,
  ◌==◌, nat_eq, str_instance, ◌&&◌, ◌||◌, if◌then◌else◌, take, length, ◌-◌, trim_space, to_lower,
  is_some, has_prefix, has_suffix,
}
use rdda.Common.Results.{Result, ok, err, ◌>>=◌}
use rdda.Routing.Document.{RouteDoc, text_or_empty, is_true, present, decode_doc}
use rdda.Json.{
  Json, null, boolean, number, text, array, object, Items, no_items, item, Members, no_members,
  member, get,
}

-- net.ParseIP and the methods of net.IP.
pub record Net (Ip : Type 0) : Type 0 where
  pub parse_ip : Str → Option Ip
  pub is_private : Ip → Bool
  pub is_loopback : Ip → Bool
  pub is_link_local_unicast : Ip → Bool
  pub is_link_local_multicast : Ip → Bool

-- A nil matcher is none; an answer is (matched, determinate).
abbrev pub GeoIpMatcher : Type 0
GeoIpMatcher = Option (Str → Str → Bool × Bool)

pub data Step : Type 0 where
  private_match private_no : ℕ → Step
  rule_set_skipped rule_set_no_matcher rule_set_unavailable : ℕ → Str → Step
  rule_set_match rule_set_no : ℕ → Str → Step
  suffix_match suffix_no unsupported : ℕ → Step
  final_step : Step

pub record Decision : Type 0 where
  pub input : Str
  pub is_ip : Bool
  pub outbound : Str
  pub rule : Str
  pub trace : List Step

pub tunneled : Decision → Bool
tunneled d = d.outbound == codes "proxy"

abbrev pub outbound_of : Members → Str
outbound_of r = text_or_empty (get (codes "outbound") r)

-- The path of a rule-set's tag, empty where no rule-set has it.
pub srs_path : Str → List (Str × Str) → Str
srs_path tag [] = []
srs_path tag ((t, path) ∷ sets) = if t == tag then path else srs_path tag sets

-- ruleSetTag
pub rule_set_tag : Json → Str
rule_set_tag (text s) = s
rule_set_tag (array (item (text s) js)) = s
rule_set_tag j = []

-- toStrings
pub strings_of : Items → List Str
strings_of no_items = []
strings_of (item (text s) js) = s ∷ strings_of js
strings_of (item j js) = strings_of js

pub to_strings : Json → List Str
unfolding strings_of
to_strings (text s) = s ∷ []
to_strings (array js) = strings_of js
to_strings j = []

abbrev dot : Str
dot = codes "."

-- strings.TrimSuffix of a dot.
pub trim_dot : Str → Str
trim_dot s = if has_suffix s dot then take (length s - 1) s else s

pub suffix_matches : Str → Str → Bool
suffix_matches domain s =
    if s == []
    then false
    else if has_prefix s dot
    then has_suffix domain s
    else domain == s || has_suffix domain (dot ++ s)

any_suffix : Str → List Str → Bool
unfolding suffix_matches
any_suffix domain [] = false
any_suffix domain (s ∷ ss) = suffix_matches domain (to_lower s) || any_suffix domain ss

-- matchDomainSuffix
pub match_domain_suffix : Str → List Str → Bool
unfolding any_suffix trim_dot
match_domain_suffix domain suffixes = any_suffix (to_lower (trim_dot domain)) suffixes

-- What the loop knows of one rule: the step to trace, and the rule's name where it matched.
abbrev pub Verdict : Type 0
Verdict = Step × Option Str

rule_set_verdict : ℕ → Str → Bool × Bool → Verdict
rule_set_verdict i tag (matched, false) = (rule_set_unavailable i tag, none)
rule_set_verdict i tag (true, true) = (rule_set_match i tag, some (codes "rule_set:" ++ tag))
rule_set_verdict i tag (false, true) = (rule_set_no i tag, none)

ask_matcher : GeoIpMatcher → Str → Str → ℕ → Str → Verdict
unfolding rule_set_verdict
ask_matcher none path input i tag = (rule_set_no_matcher i tag, none)
ask_matcher (some f) path input i tag =
    if path == [] then (rule_set_no_matcher i tag, none) else rule_set_verdict i tag (f path input)

suffix_verdict : ℕ → Bool → Str → List Str → Verdict
suffix_verdict i true input suffixes = (suffix_no i, none)
suffix_verdict i false input suffixes =
    if match_domain_suffix input suffixes
    then (suffix_match i, some (codes "domain_suffix"))
    else (suffix_no i, none)

geoip_verdict : GeoIpMatcher → List (Str × Str) → ℕ → Bool → Str → Str → Verdict
unfolding ask_matcher
geoip_verdict geoip sets i false input tag = (rule_set_skipped i tag, none)
geoip_verdict geoip sets i true input tag = ask_matcher geoip (srs_path tag sets) input i tag

abbrev decided : Decision → Step → Str → Str → Decision
decided d step out label = record d { outbound = out; rule = label; trace = d.trace ++ step ∷ [] }

module _ {Ip : Type 0} (net : Net Ip) where
  -- isPrivateIP, on the parsed input.
  pub is_private_ip : Option Ip → Bool
  is_private_ip none = false
  is_private_ip (some ip) =
      net.is_private ip
      || net.is_loopback ip
      || net.is_link_local_unicast ip
      || net.is_link_local_multicast ip

  private_verdict : ℕ → Option Ip → Verdict
  private_verdict i ip =
      if is_private_ip ip
      then (private_match i, some (codes "ip_is_private"))
      else (private_no i, none)

  module _ (geoip : GeoIpMatcher) (sets : List (Str × Str)) where
    -- The switch of the loop's body.
    verdict : ℕ → Option Ip → Str → Members → Verdict
    verdict i ip input r =
        if is_true (get (codes "ip_is_private") r)
        then private_verdict i ip
        else if present (get (codes "rule_set") r)
        then geoip_verdict geoip sets i (is_some ip) input (rule_set_tag (get (codes "rule_set") r))
        else if present (get (codes "domain_suffix") r)
        then suffix_verdict i (is_some ip) input (to_strings (get (codes "domain_suffix") r))
        else (unsupported i, none)

    -- The loop over the rules, from the i-th on; the first rule that matches decides.
    walk : Option Ip → Str → ℕ → List Members → Decision → Decision
    walk ip final i [] d = decided d final_step final (codes "final")
    walk ip final i (r ∷ rs) d =
        let (step, hit) = verdict i ip d.input r in
        let later = walk ip final (suc i) rs (record d { trace = d.trace ++ step ∷ [] }) in
        elim hit [ some label ↦ decided d step (outbound_of r) label | none ↦ later ]

-- Evaluate on a document, and on its text.
module _ {Ip : Type 0} (net : Net Ip) (geoip : GeoIpMatcher) where
  abbrev pub final_of : RouteDoc → Str
  final_of doc = if doc.final == [] then codes "proxy" else doc.final

  decide : Str → RouteDoc → Decision
  decide input doc =
      let ip = net.parse_ip input in
      walk net geoip doc.rule_set ip (final_of doc) 0 doc.rules
        (record { input = input; is_ip = is_some ip; outbound = []; rule = []; trace = [] })

  pub evaluate_doc : Json → Str → Result Str Decision
  unfolding decide
  evaluate_doc j input = do
    doc ← decode_doc j
    if trim_space input == []
        then err (codes "empty destination")
        else ok (decide (trim_space input) doc)

  pub evaluate {ℓ} : {Text : Type ℓ} → (Text → Result Str Json) → Text → Str → Result Str Decision
  evaluate parse config input = parse config >>= λ j. evaluate_doc j input
