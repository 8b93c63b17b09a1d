-- ===== src/Selfupdate/Http/Retries.antt =====
-- A fetch gives up only when four attempts have failed.
use rdda.Common.{List, take, ◌-◌, [], ◌∷◌, ℕ, ◌≤◌, ◌≡◌, arith, nat_eq}
use rdda.Common.Results.{Result, ok, err}
use rdda.Verify.{Bytes}
use rdda.Selfupdate.Http.{Attempt, HttpError, outcome, get_from, http_get_bytes}

-- The first of the attempts that brings a body, or the error of the last one.
pub first_good : Result HttpError Bytes → Result HttpError Bytes → Result HttpError Bytes
first_good (ok b) r = ok b
first_good (err x) r = r

-- The waits between so many requests, in seconds.
abbrev pub pauses : ℕ → List ℕ
pauses n = take (n - 1) (3 ∷ 6 ∷ 9 ∷ [])

-- The result of a fetch is the first body that one of the four attempts brings, and the last attempt's
-- error where none does; then four requests were made. At most four are made in any case, and the waits
-- between them are 3, 6 and 9 seconds, in that order.
pub http_get_bytes-first_good :
    (a : ℕ → Attempt)
    → ((http_get_bytes a).result
        ≡ first_good
            (outcome (a 1))
            (first_good (outcome (a 2)) (first_good (outcome (a 3)) (outcome (a 4)))))
      × ((http_get_bytes a).requests ≤ 4)
      × ((http_get_bytes a).slept ≡ pauses (http_get_bytes a).requests)
      × (((x : HttpError) × ((http_get_bytes a).result ≡ err x)) → (http_get_bytes a).requests ≡ 4)
unfolding http_get_bytes get_from first_good
http_get_bytes-first_good a = ground arith
