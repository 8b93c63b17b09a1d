-- ===== src/Health.antt =====
-- internal/health/health.go: the command runner, the state of a unit, and the beat's report. A
-- command changes the world that it runs in; `W` is that world, and a runner is a parameter of
-- every definition that runs commands.
use rdda.Common.{
  ℕ, Bool, List, [], ◌∷◌, Option, none, some, Str, codes, ◌==◌, str_instance, fields, if◌then◌else◌,
  ltb, get_or, length, leb, ◌/◌,
}

-- The trimmed combined output, and the error.
pub record Output : Type 0 where
  pub text : Str
  pub failure : Option Str

abbrev pub Runner : Type 0 → Type 0
Runner W = List Str → W → Output × W

abbrev pub systemctl : Str → Str → List Str
systemctl verb unit = codes "systemctl" ∷ verb ∷ unit ∷ []

-- UnitActive
unfoldable pub unit_active : {W : Type 0} → Runner W → Str → W → Bool × W
unit_active run unit w =
    let (out, w') = run (systemctl (codes "is-active") unit) w in (out.text == codes "active", w')

-- The typed reachability of the exit path; `tunnelprobe.Result` has the same three states.
pub data ReachStatus : Type 0 where
  reach_ok reach_blocked reach_unknown : ReachStatus

pub record ProbeResult : Type 0 where
  pub status : ReachStatus
  pub latency_ns : ℕ
  pub detail : Str

pub record Reach : Type 0 where
  pub status : ReachStatus
  pub latency_ms : ℕ
  pub detail : Str

unfoldable pub reach_from_result : ProbeResult → Reach
reach_from_result r = record {
  status = r.status;
  latency_ms = if ltb 0 r.latency_ns then r.latency_ns / 1000000 else 0;
  detail = r.detail;
}

pub record Report : Type 0 where
  pub ts : ℕ
  pub singbox_active : Bool
  pub nfqws_active : Bool
  pub singbox_version : Str
  pub rdda_version : Str
  pub reach : Reach
  pub pad : Str

version_field : Output → Str
version_field out = elim out.failure [
  | none ↦ let f = fields out.text in if leb 3 (length f) then get_or f 2 [] else []
  | some e ↦ []
]

-- Gather: three commands in this order; the clock and the random pad are arguments.
unfoldable pub gather : {W : Type 0} → Runner W → Str → ℕ → Str → W → Report × W
unfolding version_field
gather run rdda_version now pad w =
    let (out, w1) = run (codes "sing-box" ∷ codes "version" ∷ []) w in
    let (singbox, w2) = unit_active run (codes "rdda-singbox") w1 in
    let (nfqws, w3) = unit_active run (codes "rdda-nfqws") w2 in
    (
      record {
        ts = now;
        singbox_active = singbox;
        nfqws_active = nfqws;
        singbox_version = version_field out;
        rdda_version = rdda_version;
        reach = record { status = reach_unknown; latency_ms = 0; detail = [] };
        pad = pad;
      },
      w3,
    )
