-- ===== src/Doctor/Probes.antt =====
-- internal/doctor/probes.go: what the doctor reads from a configuration and from the probes' answers.
-- encoding/json finds a struct's field by its exact name.
pub mod Rendered
use rdda.Common.{
  ℕ, zero, suc, ◌+◌, Bool, true, false, not, List, [], ◌∷◌, ◌++◌, Option, none, some, Str, codes,
  ◌==◌, nat_eq, str_instance, ◌&&◌, ◌||◌, if◌then◌else◌, trim_space, to_lower, has_prefix, contains,
  split_on, take, is_some, ◌*◌, ◌^◌,
}
use rdda.Common.Results.{Result, ok, err, ◌>>=◌}
use rdda.Health.{ProbeResult, reach_ok, reach_blocked, reach_unknown}
use rdda.Json.{
  ℤ, pos, negsuc, Json, null, boolean, number, text, array, object, Items, no_items, item, Members,
  no_members, get,
}

-- The fields of an inbound that are read.
pub record Reality : Type 0 where
  pub enabled : Bool
  pub server : Str
  pub port : ℤ

abbrev mismatch : Str
mismatch = codes "json: cannot unmarshal"

-- encoding/json into a struct's field: null leaves the zero value, another type is an error.
decode_members : Json → Result Str Members
decode_members null = ok no_members
decode_members (object m) = ok m
decode_members j = err mismatch

decode_items : Json → Result Str Items
decode_items null = ok no_items
decode_items (array js) = ok js
decode_items j = err mismatch

decode_bool : Json → Result Str Bool
decode_bool null = ok false
decode_bool (boolean b) = ok b
decode_bool j = err mismatch

decode_str : Json → Result Str Str
decode_str null = ok []
decode_str (text s) = ok s
decode_str j = err mismatch

decode_int : Json → Result Str ℤ
decode_int null = ok (pos 0)
decode_int (number n) = ok n
decode_int j = err mismatch

decode_reality : Json → Result Str Reality
unfolding decode_members decode_bool decode_str decode_int
decode_reality j = do
  inbound ← decode_members j
  tls ← decode_members (get (codes "tls") inbound)
  reality ← decode_members (get (codes "reality") tls)
  enabled ← decode_bool (get (codes "enabled") reality)
  handshake ← decode_members (get (codes "handshake") reality)
  server ← decode_str (get (codes "server") handshake)
  port ← decode_int (get (codes "server_port") handshake)
  ok (record { enabled = enabled; server = server; port = port })

decode_inbounds : Items → Result Str (List Reality)
unfolding decode_reality
decode_inbounds no_items = ok []
decode_inbounds (item j js) = do r ← decode_reality j; rs ← decode_inbounds js; ok (r ∷ rs)

-- json.Unmarshal of a parsed document into the struct.
decode_config : Json → Result Str (List Reality)
unfolding decode_members decode_items decode_inbounds
decode_config j = do
  top ← decode_members j
  inbounds ← decode_items (get (codes "inbounds") top)
  decode_inbounds inbounds

pub or_https : ℤ → ℤ
or_https (pos zero) = pos 443
or_https n = n

-- The loop: the first enabled inbound with a handshake server.
first_dest : List Reality → Option (Str × ℤ)
unfolding or_https
first_dest [] = none
first_dest (r ∷ rs) =
    let rest = first_dest rs in
    if r.enabled && not (r.server == []) then some (r.server, or_https r.port) else rest

dest_of : Result Str (List Reality) → Option (Str × ℤ)
unfolding first_dest
dest_of (err x) = none
dest_of (ok rs) = first_dest rs

-- realityDestFromConfig, on the document that the text parses to.
unfoldable pub reality_dest_from_config : Result Str Json → Option (Str × ℤ)
unfolding decode_config dest_of
reality_dest_from_config parsed = dest_of (do j ← parsed; decode_config j)

-- legacyShared
unfoldable pub legacy_shared : Str → Bool
legacy_shared host = host == codes "addons.mozilla.org"

-- realEgress: the probe's typed result as the doctor's; the error is the probe's detail.
unfoldable pub real_egress : ProbeResult → Result Str Bool
real_egress r = elim r.status [
  | reach_ok ↦ ok true
  | reach_blocked ↦ ok false
  | reach_unknown ↦ err r.detail
]

connector_lines : List Str → ℕ
connector_lines [] = 0
connector_lines (l ∷ ls) =
    let low = to_lower (trim_space l) in
    let rest = connector_lines ls in
    if has_prefix low (codes "connector") || contains low (codes "connections:")
    then suc rest
    else rest

-- realCloudflaredInfo: whether cloudflared is on the PATH, and what it prints.
unfoldable pub real_cloudflared_info : Bool → Result Str Str → Result Str ℕ
unfolding connector_lines
real_cloudflared_info false out = err (codes "cloudflared not on PATH")
real_cloudflared_info true (err x) = err (codes "cloudflared tunnel info: " ++ x)
real_cloudflared_info true (ok out) = ok (connector_lines (split_on b'\n' out))

-- A certificate that the peer sent.
pub record Certificate : Type 0 where
  pub is_ca : Bool
  pub not_after : ℕ

-- The expiry of the first certificate that is not an authority's.
pub leaf_not_after : List Certificate → Option ℕ
leaf_not_after [] = none
leaf_not_after (c ∷ cs) =
    let rest = leaf_not_after cs in if not c.is_ca then some c.not_after else rest

-- An answer of the HTTP probe: the status, the body cut at 1 MiB, and the served leaf's expiry.
pub record Answer : Type 0 where
  pub code : ℕ
  pub body : Str
  pub not_after : Option ℕ
