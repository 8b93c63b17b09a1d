-- ===== src/State/Fingerprint.antt =====
-- internal/state/fingerprint.go: the pool of TLS fingerprints for new clients.
use rdda.Common.{ℕ, Bool, List, [], ◌∷◌, ◌++◌, Str, codes, ◌==◌, str_instance, any, get_or, str_lt}
use rdda.Common.Results.{Result, ok, err}
use rdda.Common.Sorting.{sort}

abbrev pub client_fingerprints : List Str
client_fingerprints = codes "firefox" ∷ codes "edge" ∷ codes "safari" ∷ codes "android" ∷ []

-- rand.Int gives an index below the pool's size, or an error.
unfoldable pub random_client_fingerprint : Result Str ℕ → Str
random_client_fingerprint (ok n) = get_or client_fingerprints n []
random_client_fingerprint (err x) = get_or client_fingerprints 0 []

unfoldable pub is_client_fingerprint : Str → Bool
is_client_fingerprint fp = any (λ v. v == fp) client_fingerprints

-- strings.Join with a comma.
joined : List Str → Str
joined [] = []
joined (s ∷ []) = s
joined (s ∷ t ∷ ss) = s ++ (codes ", " ++ joined (t ∷ ss))

pub fingerprint_list : Str
unfolding joined
fingerprint_list = joined (sort str_lt client_fingerprints)
