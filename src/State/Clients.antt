-- ===== src/State/Clients.antt =====
-- internal/state/client.go: a client's record.
use rdda.Common.{ℕ, Str, str_instance}
use rdda.State.Config.{default_to}

pub record Client : Type 0 where
  pub name : Str
  pub uuid : Str
  pub short_id : Str
  pub token : Str
  pub fingerprint : Str
  pub created : ℕ

pub fingerprint_or : Client → Str → Str
fingerprint_or c fallback = default_to fallback c.fingerprint
