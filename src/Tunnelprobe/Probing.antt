-- ===== src/Tunnelprobe/Probing.antt =====
-- internal/tunnelprobe/tunnelprobe.go: the probe through the node's own tunnel. Printing JSON, the file
-- system, sing-box and the fetches are arguments; times are nanoseconds.
pub mod Attempts
use rdda.Common.{
  ℕ, zero, suc, ◌+◌, ◌*◌, ◌/◌, Bool, true, false, not, List, [], ◌∷◌, ◌++◌, Option, none, some, Str,
  codes, ◌==◌, nat_eq, str_instance, ◌&&◌, if◌then◌else◌, ltb, leb,
}
use rdda.Common.Format.{decimal}
use rdda.Common.Results.{Result, ok, err, ◌>>=◌}
use rdda.Health.{ReachStatus, reach_ok, reach_blocked, reach_unknown, ProbeResult}
use rdda.Json.{
  ℤ, pos, negsuc, Json, null, boolean, number, text, array, object, obj, items, Items, no_items,
  item, Members, no_members, get,
}
use rdda.Singboxconf.{on, field, utls, vless, direct}
use rdda.Tunnelprobe.{build_client_config}

-- One fetch: an error, or a status and how long it took.
pub data Fetch : Type 0 where
  no_answer : Str → Fetch
  answer : ℕ → ℕ → Fetch

abbrev pub is_through : ℕ → Bool
is_through status = leb 200 status && ltb status 500

blocked : Option Str → ProbeResult
blocked none = record {
  status = reach_blocked;
  latency_ns = 0;
  detail = codes "no response through the tunnel";
}
blocked (some x) = record { status = reach_blocked; latency_ns = 0; detail = x }

-- The loop: the fetches to come, and the last error; `show` is Duration.String of the rounded latency.
attempts : (ℕ → Str) → List Fetch → Option Str → ProbeResult
unfolding blocked
attempts show [] last = blocked last
attempts show (no_answer x ∷ fs) last = attempts show fs (some x)
attempts show (answer status latency ∷ fs) last =
    let rest = attempts show fs (some (codes "status " ++ decimal status)) in
    if is_through status
    then record { status = reach_ok; latency_ns = latency; detail = show latency }
    else rest

unknown : Str → ProbeResult
unknown x = record { status = reach_unknown; latency_ns = 0; detail = x }

-- What the probe meets on its way: sing-box on the PATH, a port, the directory, the file, the process, the
-- SOCKS dialer.
pub record Env : Type 0 where
  pub on_path : Bool
  pub free_port : Result Str ℕ
  pub mkdir : Option Str
  pub write : Option Str
  pub start : Option Str
  pub dialer : Option Str

stop : Str → Option Str → Result Str (Unit {0})
stop prefix none = ok tt
stop prefix (some x) = err (prefix ++ x)

path_found : Bool → Result Str (Unit {0})
path_found true = ok tt
path_found false = err (codes "sing-box not on PATH")

port_or : Result Str ℕ → Result Str ℕ
port_or (ok p) = ok p
port_or (err x) = err (codes "could not allocate a probe port: " ++ x)

-- Everything before the loop.
pub ready :
    Env → (Str → Result Str Str) → (Json → Result Str Str) → Result Str Json → Result Str (Unit {0})
unfolding stop path_found port_or
ready e public_from_private print parsed = do
  bin ← path_found e.on_path
  port ← port_or e.free_port
  client ← build_client_config public_from_private parsed port
  cfg ← print client.0
  dir ← stop [] e.mkdir
  file ← stop [] e.write
  proc ← stop (codes "start sing-box: ") e.start
  stop (codes "socks dialer: ") e.dialer

-- The outcomes of n tries from the i-th on.
abbrev pub outcomes : (ℕ → Fetch) → ℕ → ℕ → List Fetch
outcomes fetch i zero = []
outcomes fetch i (suc n) = fetch i ∷ outcomes fetch (suc i) n

abbrev pub tries : ℕ
tries = 12

started : (ℕ → Str) → (ℕ → Fetch) → Result Str (Unit {0}) → ProbeResult
unfolding unknown attempts
started show fetch (err x) = unknown x
started show fetch (ok u) = attempts show (outcomes fetch 0 tries) none

-- Probe; `fetch i` is what the i-th try of the loop meets.
unfoldable pub probe :
    Env
    → (Str → Result Str Str)
    → (Json → Result Str Str)
    → (ℕ → Str)
    → Result Str Json
    → (ℕ → Fetch)
    → ProbeResult
unfolding started
probe e public_from_private print show parsed fetch =
    started show fetch (ready e public_from_private print parsed)
