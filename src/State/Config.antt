-- ===== src/State/Config.antt =====
-- internal/state/config.go: the configuration, its defaults, and the structural values that are drawn
-- from the tunnel's UUID. Reading and writing the YAML file is not part of it.
pub mod RuleOrder
pub mod Examples
use Prim.Native.Nat.{bit_xor}
use rdda.Common.{
  ℕ, zero, suc, ◌+◌, ◌*◌, ◌/◌, ◌%◌, ◌^◌, Bool, not, List, [], ◌∷◌, ◌++◌, Str, codes, utf8, ◌==◌,
  str_instance, nat_eq, if◌then◌else◌, length, get_or, set,
}
use rdda.Common.Words.{u64}

pub record Reality : Type 0 where
  pub target : Str
  pub server_name : Str
  pub private_key : Str
  pub public_key : Str
  pub short_ids : List Str

pub record Cloudflare : Type 0 where
  pub tunnel_hostname : Str
  pub sub_hostname : Str
  pub tunnel_id : Str
  pub credentials_file : Str

pub record Desync : Type 0 where
  pub enabled : Bool
  pub profile : Str
  pub fooling : Str
  pub ports : List ℕ

-- The fields that the program's packages read, without the alert's, which Alert has.
pub record Config : Type 0 where
  pub ru_host : Str
  pub ru_port : ℕ
  pub eu_host : Str
  pub eu_port : ℕ
  pub client_path : Str
  pub tunnel_path : Str
  pub tunnel_uuid : Str
  pub sub_base_url : Str
  pub intl_allow_domains : List Str
  pub geoip_path : Str
  pub client_reality : Reality
  pub tunnel_reality : Reality
  pub cloudflare : Cloudflare
  pub pull_token : Str
  pub fingerprint : Str
  pub profile_title : Str
  pub desync : Desync

-- `if s == "" { s = default }`
abbrev pub default_to : Str → Str → Str
default_to d s = if s == [] then d else s

pub profile_title_or : Config → Str
profile_title_or c = default_to (codes "VPN") c.profile_title

unfoldable pub cf_enabled : Config → Bool
cf_enabled c = not (c.cloudflare.tunnel_hostname == [])

pub nfqws_args : Desync → Str
nfqws_args d =
    codes "--qnum=200 --dpi-desync="
    ++ default_to (codes "fake,split2") d.profile
    ++ codes " --dpi-desync-fooling="
    ++ default_to (codes "badsum") d.fooling

pub fp : Config → Str
fp c = default_to (codes "firefox") c.fingerprint

-- hash/fnv: FNV-1a over the bytes, in 64 bits.
abbrev pub fnv_offset : ℕ
fnv_offset = 14695981039346656037

abbrev pub fnv_prime : ℕ
fnv_prime = 1099511628211

unfoldable pub fnv_write : ℕ → List ℕ → ℕ
fnv_write h [] = h
fnv_write h (b ∷ bs) = fnv_write (u64 (bit_xor h b * fnv_prime)) bs

unfoldable pub struct_seed : Config → ℕ
struct_seed c = if c.tunnel_uuid == [] then 0 else fnv_write fnv_offset (utf8 c.tunnel_uuid)

abbrev pub mux_protocols : List Str
mux_protocols = codes "h2mux" ∷ codes "smux" ∷ codes "yamux" ∷ []

pub protocol_of : ℕ → Str
protocol_of s = if s == 0 then codes "h2mux" else get_or mux_protocols (s % length mux_protocols) []

pub mux_protocol : Config → Str
unfolding protocol_of
mux_protocol c = protocol_of (struct_seed c)

pub streams_of : ℕ → ℕ
streams_of s = if s == 0 then 8 else 4 + s / 2 ^ 8 % 13

pub mux_streams : Config → ℕ
unfolding streams_of
mux_streams c = streams_of (struct_seed c)

-- `for i := range order { order[i] = i }`
unfoldable pub counted : ℕ → ℕ → List ℕ
counted from zero = []
counted from (suc n) = from ∷ counted (suc from) n

unfoldable pub lcg : ℕ → ℕ
lcg s = u64 (s * 6364136223846793005 + 1442695040888963407)

-- `order[i], order[j] = order[j], order[i]`
unfoldable pub exchange : List ℕ → ℕ → ℕ → List ℕ
exchange xs i j = set (set xs i (get_or xs j 0)) j (get_or xs i 0)

-- The loop from index `i` down to 1.
unfoldable pub shuffle : ℕ → ℕ → List ℕ → List ℕ
shuffle zero s order = order
shuffle (suc i) s order =
    let s' = lcg s in shuffle i s' (exchange order (suc i) (s' / 2 ^ 33 % suc (suc i)))

unfoldable pub order_of : ℕ → ℕ → List ℕ
unfolding counted
order_of s zero = []
order_of s (suc m) =
    let order = counted 0 (suc m) in
    let shuffled = shuffle m s order in if s == 0 then order else shuffled

pub rule_order : Config → ℕ → List ℕ
rule_order c n = order_of (struct_seed c) n
