-- ===== src/Selfupdate/Http/Examples.antt =====
-- A flaky connection: the third attempt brings the body.
use rdda.Common.{ℕ, ◌≤◌, codes, ◌≡◌, refl, ◌==◌, nat_eq, if◌then◌else◌}
use rdda.Common.Results.{ok, err}
use rdda.Selfupdate.Http.{Attempt, failed, response, HttpError, outcome, http_get_bytes}
use rdda.Selfupdate.Http.Retries.{pauses, first_good, http_get_bytes-first_good}

abbrev flaky : ℕ → Attempt
flaky n =
    if n == 3 then response 200 (ok (codes "body")) else failed (codes "TLS handshake timeout")

http_get_bytes-first_good_example :
    ((http_get_bytes flaky).result
      ≡ first_good
          (outcome (flaky 1))
          (first_good (outcome (flaky 2)) (first_good (outcome (flaky 3)) (outcome (flaky 4)))))
    × ((http_get_bytes flaky).requests ≤ 4)
    × ((http_get_bytes flaky).slept ≡ pauses (http_get_bytes flaky).requests)
    × (((x : HttpError) × ((http_get_bytes flaky).result ≡ err x))
        → (http_get_bytes flaky).requests ≡ 4)
http_get_bytes-first_good_example = http_get_bytes-first_good flaky

third_time : (http_get_bytes flaky).result ≡ ok (codes "body")
unfolding http_get_bytes
third_time = refl
