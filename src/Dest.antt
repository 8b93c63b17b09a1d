-- ===== src/Dest.antt =====
-- internal/dest/dest.go: choosing the site whose TLS handshake a node borrows. The TLS connection, URL
-- parsing and the public suffix list are arguments.
pub mod Ranking
mod Examples
use rdda.Common.{
  ℕ, ◌/◌, Bool, true, false, not, List, [], ◌∷◌, Option, none, some, Str, codes, ◌==◌, nat_eq,
  str_instance, ◌||◌, ◌&&◌, ltb, if◌then◌else◌, trim_space, split_on, has_prefix, has_suffix,
  contains, take, length, ◌-◌, map, has_prefix,
}
use rdda.Common.Results.{Result, ok, err}
use rdda.Common.Sorting.{sort}

-- Candidates, on the embedded file's text.
candidate_lines : List Str → List Str
candidate_lines [] = []
candidate_lines (l ∷ ls) =
    let rest = candidate_lines ls in
    if trim_space l == [] || has_prefix (trim_space l) (codes "#")
    then rest
    else trim_space l ∷ rest

pub candidates : Str → List Str
unfolding candidate_lines
candidates file = candidate_lines (split_on 10 file)

pub data Reason : Type 0 where
  no_reason no_tls13 no_http2 unreachable invalid_certificate : Reason
  bad_request handshake_failed : Str → Reason
  off_domain : ℕ → Str → Reason
  not_a_page : ℕ → Reason

pub record Probed : Type 0 where
  pub host : Str
  pub is_ok : Bool
  pub rtt : ℕ
  pub reason : Reason

-- What a request came to; `tls` is none without TLS, else whether it is 1.3, and the protocol.
pub record Response : Type 0 where
  pub tls : Option (Bool × Str)
  pub status : ℕ
  pub location : Str

-- An error of the request: whether it is a deadline's, and its message.
pub record Failure : Type 0 where
  pub is_deadline : Bool
  pub message : Str

pub tls_fail_reason : Failure → Reason
tls_fail_reason f =
    if f.is_deadline || contains f.message (codes "timeout")
    then unreachable
    else if contains f.message (codes "certificate")
    then invalid_certificate
    else handshake_failed f.message

-- url.Parse to the host name of a URL, and the registrable domain of a host.
pub record Names : Type 0 where
  pub parse_url : Str → Result Str Str
  pub effective_tld_plus_one : Str → Result Str Str

or_host : Str → Result Str Str → Str
or_host host (ok d) = d
or_host host (err x) = host

module _ (names : Names) where
  pub registrable : Str → Str
  unfolding or_host
  registrable host = or_host host (
      names.effective_tld_plus_one
        (if has_suffix host (codes ".") then take (length host - 1) host else host))

  same_host : Str → Result Str Str → Bool
  same_host host (err x) = false
  same_host host (ok lh) = lh == [] || registrable host == registrable lh

  pub same_site : Str → Str → Bool
  unfolding same_host
  same_site host location =
      if location == [] then false else same_host host (names.parse_url location)

  -- realPage: none where the response is an acceptable identity.
  pub real_page : Str → Response → Option Reason
  real_page host r =
      if r.status / 100 == 2
      then none
      else if r.status / 100 == 3
      then (if same_site host r.location then none else some (off_domain r.status r.location))
      else some (not_a_page r.status)

  judge_page : Str → ℕ → Option Reason → Probed
  judge_page host rtt (some reason) = record {
    host = host;
    is_ok = false;
    rtt = rtt;
    reason = reason;
  }
  judge_page host rtt none = record { host = host; is_ok = true; rtt = rtt; reason = no_reason }

  abbrev failed : Str → ℕ → Reason → Probed
  failed host rtt reason = record { host = host; is_ok = false; rtt = rtt; reason = reason }

  judge_tls : Str → ℕ → Option (Bool × Str) → Response → Probed
  unfolding judge_page
  judge_tls host rtt none r = failed host rtt no_tls13
  judge_tls host rtt (some (tls13, protocol)) r =
      if not tls13
      then failed host rtt no_tls13
      else if not (protocol == codes "h2")
      then failed host rtt no_http2
      else judge_page host rtt (real_page host r)

  judge : Str → ℕ → Result Failure Response → Probed
  unfolding judge_tls
  judge host rtt (err f) = failed host rtt (tls_fail_reason f)
  judge host rtt (ok r) = judge_tls host rtt r.tls r

  -- Probe: `request` builds the request or fails, and `send` answers with the round trip's time.
  pub probe : (Str → Option Str) → (Str → ℕ × Result Failure Response) → Str → Probed
  unfolding judge
  probe request send host = elim (request host) [
    | some x ↦ failed host 0 (bad_request x)
    | none ↦ let (rtt, answer) = send host in judge host rtt answer
  ]

-- The order of the ranking: validating hosts first, the nearest first.
unfoldable pub before : Probed → Probed → Bool
before a b = if a.is_ok then (if b.is_ok then ltb a.rtt b.rtt else true) else false

-- Discover: each host's result in its own slot, whatever order the probes end in, then a stable sort.
pub discover : (Str → Probed) → List Str → List Probed
discover p hosts = sort before (map p hosts)

pub best : List Probed → Option Probed
best [] = none
best (r ∷ rs) = if r.is_ok then some r else best rs
