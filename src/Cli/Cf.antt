-- ===== src/Cli/Cf.antt =====
-- internal/cli/cf.go: `rdda cf setup`. The commands, the files and the state directory are in a world `W`
-- that the model does not look into; every side effect goes through the environment.
pub mod Gate
mod Examples
use rdda.Common.{
  ℕ, Bool, true, false, not, List, [], ◌∷◌, ◌++◌, Option, none, some, Str, codes, ◌==◌,
  str_instance, ◌&&◌, ◌||◌, if◌then◌else◌,
}
use rdda.Common.Results.{Result, ok, err}
use rdda.Cfconfig
use rdda.Cfsetup.{RouteResult, parse_create, find_tunnel_id, classify_route_dns}
use rdda.Json.{Json}
use rdda.State.Config.{Config, Cloudflare}

pub data CfError : Type 0 where
  open_failed load_failed login_failed no_tunnel_id render_failed mkdir_failed read_failed
        write_failed save_failed reload_failed enable_failed :
      Str → CfError
  need_hosts no_cloudflared : CfError
  list_failed : Str → Str → CfError
  not_in_list : Str → Str → CfError
  dns_conflict : List Str → CfError

-- cfEnv, the store of the state directory, and os.ReadFile; `print` is yaml.Marshal.
pub record Env (W : Type 0) : Type 0 where
  pub dry_run : Bool
  pub home : Str
  pub has_cloudflared : W → Bool
  pub exists : Str → W → Bool
  pub open_state : W → Option Str × W
  pub load_config : W → Result Str Config
  pub run : List Str → W → (Str × Option Str) × W
  pub run_attached : List Str → W → Option Str × W
  pub mkdir_all : Str → W → Option Str × W
  pub read_file : Str → W → Result Str Str
  pub write_file : Str → Str → W → Option Str × W
  pub save_config : Config → W → Option Str × W
  pub print : Json → Result Str Str

pub record Options : Type 0 where
  pub tunnel_name : Str
  pub tunnel_host : Str
  pub sub_host : Str

abbrev cloudflared : List Str → List Str
cloudflared args = codes "cloudflared" ∷ codes "tunnel" ∷ args

abbrev cloudflared_dir : Str
cloudflared_dir = codes "/etc/cloudflared"

-- A step that may fail, and its sequence.
abbrev pub Step : Type 0 → Type 0 → Type 0
Step W A = W → Result CfError A × W

continue : {W A B : Type 0} → Result CfError A × W → (A → Step W B) → Result CfError B × W
continue (err x, w) next = (err x, w)
continue (ok a, w) next = next a w

checked : {W : Type 0} → (Str → CfError) → Option Str × W → Result CfError (Unit {0}) × W
checked f (none, w) = (ok tt, w)
checked f (some x, w) = (err (f x), w)

fill : Str → Str → Str
fill given fallback = if given == [] then fallback else given

module _ {W : Type 0} (e : Env W) where
  -- 1. Login.
  login : Step W (Unit {0})
  unfolding checked
  login w =
      if e.exists (e.home ++ codes "/.cloudflared/cert.pem") w
      then (ok tt, w)
      else if e.dry_run
      then (ok tt, w)
      else checked login_failed (e.run_attached (cloudflared (codes "login" ∷ [])) w)

  found : Str → Str → Option Str → Result CfError (Str × Str)
  found name x none = err (not_in_list name x)
  found name x (some id) = ok (id, e.home ++ codes "/.cloudflared/" ++ id ++ codes ".json")

  listed : Str → Str → (Str × Option Str) × W → Result CfError (Str × Str) × W
  unfolding found
  listed name x ((out, some y), w) = (err (list_failed x y), w)
  listed name x ((out, none), w) = (found name x (find_tunnel_id out name), w)

  parsed : Result Str (Str × Str) → Result CfError (Str × Str)
  parsed (err x) = err (no_tunnel_id x)
  parsed (ok p) = ok p

  created : Str → (Str × Option Str) × W → Result CfError (Str × Str) × W
  unfolding listed parsed
  created name ((out, none), w) = (parsed (parse_create out), w)
  created name ((out, some x), w) = listed name x (e.run (cloudflared (codes "list" ∷ [])) w)

  -- 2. ensureTunnel
  ensure_tunnel : Str → Step W (Str × Str)
  unfolding created
  ensure_tunnel name w =
      if e.dry_run
      then (ok (codes "dry-run-tunnel-id", []), w)
      else created name (e.run (cloudflared (codes "create" ∷ name ∷ [])) w)

  copied : Str → Result Str Str → Step W (Unit {0})
  unfolding checked
  copied dst (err x) w = (err (read_failed x), w)
  copied dst (ok creds) w = checked write_failed (e.write_file dst creds w)

  copy_creds : Str → Str → Step W (Unit {0})
  unfolding copied
  copy_creds src dst w =
      if not (src == []) && not (src == dst) then copied dst (e.read_file src w) w else (ok tt, w)

  -- useradd and chown: their failures only print a warning.
  give_to_user : Step W (Unit {0})
  give_to_user w =
      let (added, w1) =
        e.run
          (codes "useradd"
            ∷ codes "--system"
            ∷ codes "--no-create-home"
            ∷ codes "--shell"
            ∷ codes "/usr/sbin/nologin"
            ∷ codes "cloudflared"
            ∷ [])
          w in
      let (owned, w2) =
        e.run (codes "chown" ∷ codes "-R" ∷ codes "cloudflared:cloudflared" ∷ cloudflared_dir ∷ [])
          w1 in
      (ok tt, w2)

  staged : Str → Str → Result Str Str → Step W (Unit {0})
  unfolding continue copy_creds give_to_user checked
  staged src dst (err x) w = (err (render_failed x), w)
  staged src dst (ok yml) w =
      if e.dry_run
      then (ok tt, w)
      else continue (checked mkdir_failed (e.mkdir_all cloudflared_dir w)) λ made w1.
        continue (copy_creds src dst w1) λ copy w2.
          continue
            (checked write_failed (e.write_file (codes "/etc/cloudflared/config.yml") yml w2))
            λ wrote w3. give_to_user w3

  -- The cloudflare block for the tunnel.
  with_tunnel : Config → Str → Str → Options → Config
  with_tunnel cfg id dst o = record cfg {
    cloudflare = record {
      tunnel_hostname = o.tunnel_host;
      sub_hostname = o.sub_host;
      tunnel_id = id;
      credentials_file = dst;
    };
  }

  -- 3. stageCloudflared
  stage_cloudflared : Config → Str → Str → Str → Options → Step W (Unit {0})
  unfolding staged with_tunnel
  stage_cloudflared cfg id src dst o w =
      staged src dst (Cfconfig.render e.print (with_tunnel cfg id dst o) 8080) w

  -- 4. The block is saved.
  save : Config → Step W (Unit {0})
  unfolding checked
  save cfg w = if e.dry_run then (ok tt, w) else checked save_failed (e.save_config cfg w)

  -- routeDNS
  unfoldable pub route_dns : Str → Str → W → RouteResult × W
  route_dns name host w =
      let ((out, error), w1) =
        e.run (cloudflared (codes "route" ∷ codes "dns" ∷ name ∷ host ∷ [])) w in
      if e.dry_run
      then (record { is_ok = true; conflict = false; msg = codes "[dry-run]" }, w)
      else (classify_route_dns out error, w1)

  -- enableService
  unfoldable pub enable_service : Step W (Unit {0})
  unfolding continue checked
  enable_service w =
      if e.dry_run
      then (ok tt, w)
      else (let ((o1, x1), w1) = e.run (codes "systemctl" ∷ codes "daemon-reload" ∷ []) w in
          continue (checked reload_failed (x1, w1)) λ reloaded w2.
            let ((o2, x2), w3) =
              e.run (codes "systemctl" ∷ codes "enable" ∷ codes "--now" ∷ codes "cloudflared" ∷ [])
                w2 in
            checked enable_failed (x2, w3))

  -- Steps 1 to 4.
  pub prepare : Config → Options → Step W (Unit {0})
  unfolding continue login ensure_tunnel stage_cloudflared save
  prepare cfg o w = continue (login w) λ logged w1.
      continue (ensure_tunnel o.tunnel_name w1) λ tunnel w2.
        let (id, creds) = tunnel in
        let dst = cloudflared_dir ++ codes "/" ++ id ++ codes ".json" in
        continue (stage_cloudflared cfg id creds dst o w2)
          λ done w3. save (with_tunnel cfg id dst o) w3

  -- 5. The loop over the hostnames: those with a conflict.
  unfoldable pub route_all : Str → List Str → W → List Str × W
  route_all name [] w = ([], w)
  route_all name (h ∷ hs) w =
      let (r, w1) = route_dns name h w in
      let (rest, w2) = route_all name hs w1 in (if r.conflict then h ∷ rest else rest, w2)

  -- 6. The service.
  finish : List Str × W → Result CfError (Unit {0}) × W
  finish ([], w) = enable_service w
  finish (h ∷ hs, w) = (err (dns_conflict (h ∷ hs)), w)

  configured : Config → Options → Step W (Unit {0})
  unfolding continue prepare finish
  configured cfg o w =
      if o.tunnel_host == [] || o.sub_host == []
      then (err need_hosts, w)
      else if not e.dry_run && not (e.has_cloudflared w)
      then (err no_cloudflared, w)
      else continue (prepare cfg o w)
          λ ready w1. finish (route_all o.tunnel_name (o.tunnel_host ∷ o.sub_host ∷ []) w1)

  -- Hostnames that are not given are those that init has stored.
  pub with_hosts : Config → Options → Options
  unfolding fill
  with_hosts cfg o = record o {
    tunnel_host = fill o.tunnel_host cfg.cloudflare.tunnel_hostname;
    sub_host = fill o.sub_host cfg.cloudflare.sub_hostname;
  }

  loaded : Result Str Config → Options → Step W (Unit {0})
  unfolding configured with_hosts
  loaded (err x) o w = (err (load_failed x), w)
  loaded (ok cfg) o w = configured cfg (with_hosts cfg o) w

  -- state.Open makes the state directory, in a dry run too.
  opened : Option Str × W → Options → Result CfError (Unit {0}) × W
  unfolding loaded
  opened (some x, w) o = (err (open_failed x), w)
  opened (none, w) o = loaded (e.load_config w) o w

  -- runCFSetup
  unfoldable pub run_cf_setup : Options → Step W (Unit {0})
  unfolding opened
  run_cf_setup o w = opened (e.open_state w) o
