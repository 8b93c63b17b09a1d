-- ===== src/State/Config/Examples.antt =====
-- A deployment with a tunnel UUID, and one without.
use mathlib.Core.List.{Perm}
use rdda.Common.{str_eq, utf8, false, [], ◌∷◌, ◌≡◌, refl, codes}
use rdda.Common.{str_instance}
use rdda.State.Config.{
  Config, fnv_write, struct_seed, counted, rule_order, mux_protocol, mux_protocols, mux_streams,
}
use rdda.State.Config.RuleOrder.{rule_order-Perm}

abbrev keys : rdda.State.Config.Reality
keys = record {
  target = codes "www.example.com:443";
  server_name = codes "www.example.com";
  private_key = codes "private";
  public_key = codes "public";
  short_ids = codes "0123abcd" ∷ [];
}

abbrev pub eu : Config
eu = record {
  ru_host = codes "ru.example.com";
  ru_port = 443;
  eu_host = codes "eu.example.com";
  eu_port = 443;
  client_path = codes "/c";
  tunnel_path = codes "/t";
  tunnel_uuid = codes "a";
  sub_base_url = codes "https://sub.example.com";
  intl_allow_domains = [];
  geoip_path = [];
  client_reality = keys;
  tunnel_reality = keys;
  cloudflare = record {
    tunnel_hostname = [];
    sub_hostname = [];
    tunnel_id = [];
    credentials_file = [];
  };
  pull_token = codes "token";
  fingerprint = [];
  profile_title = [];
  desync = record { enabled = false; profile = []; fooling = []; ports = [] };
}

rule_order-Perm_example : Perm (rule_order eu 5) (counted 0 5)
rule_order-Perm_example = rule_order-Perm eu 5

-- The published FNV-1a hash of "a".
seed_of_a : struct_seed eu ≡ 0xaf63dc4c8601ec8c
unfolding struct_seed fnv_write str_eq utf8
seed_of_a = refl
