-- ===== src/Selfupdate/Http.antt =====
-- httpGetBytes: a fetch with retries. What each attempt meets is an argument.
pub mod Retries
mod Examples
use rdda.Common.{
  ℕ, zero, suc, ◌+◌, ◌-◌, ◌*◌, Bool, true, false, List, [], ◌∷◌, ◌++◌, Option, none, some, Str,
  ◌==◌, nat_eq, ltb, if◌then◌else◌,
}
use rdda.Common.Results.{Result, ok, err}
use rdda.Verify.{Bytes}

-- One attempt: the transport's error, or a response with its status and what reading its body gives.
pub data Attempt : Type 0 where
  failed : Str → Attempt
  response : ℕ → Result Str Bytes → Attempt

pub data HttpError : Type 0 where
  transport : Str → HttpError
  body : Str → HttpError
  status : ℕ → HttpError

-- The attempt's body, or the `lastErr` that it sets.
unfoldable pub outcome : Attempt → Result HttpError Bytes
outcome (failed x) = err (transport x)
outcome (response code (err x)) = err (body x)
outcome (response code (ok b)) = if code == 200 then ok b else err (status code)

pub record Fetched : Type 0 where
  pub result : Result HttpError Bytes
  pub requests : ℕ
  pub slept : List ℕ

-- The wait after a failed attempt, in seconds; none after the fourth.
abbrev pause : ℕ → List ℕ
pause attempt = if ltb attempt 4 then attempt * 3 ∷ [] else []

-- The loop from an attempt on, with the attempts left; `attempts n` is what attempt n meets.
pub get_from : (ℕ → Attempt) → ℕ → ℕ → HttpError → List ℕ → Fetched
get_from attempts zero n last slept = record { result = err last; requests = n - 1; slept = slept }
get_from attempts (suc left) n last slept = elim (outcome (attempts n)) [
  | ok b ↦ record { result = ok b; requests = n; slept = slept }
  | err x ↦ get_from attempts left (n + 1) x (slept ++ pause n)
]

unfoldable pub http_get_bytes : (ℕ → Attempt) → Fetched
unfolding get_from outcome
http_get_bytes attempts = get_from attempts 4 1 (transport []) []
