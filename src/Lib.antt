-- ===== src/Lib.antt =====
-- RDDA: a two-node censorship-resistant tunnel. The EU node is the source of truth: it keeps the state,
-- serves each client's subscription and the RU node's configuration, watches the RU node and mails alerts.
-- The RU node pulls its configuration, sends health beats, refreshes its rule-set, and heals its units.
-- Both update their own binary from signed releases.
--
-- The files and the code they model (paths from the repository's root):
--
--   Selfupdate     internal/selfupdate/selfupdate.go. `Selfupdate.Gate` is Update up to the first write:
--                  the tag, the key, the download, the signature (verify), the digest. `Selfupdate.Install`
--                  is the rest: backup, swap, self-check, restart, rollback. `Selfupdate.Disk` has the three
--                  files of the node; `Selfupdate.Http` the download with its retries.
--   Verify         internal/verify/verify.go and key.go: minisign public keys and signatures.
--   Alert          internal/alert/alert.go: evaluate; `Alert.Sending` has Run and the stored firing set.
--   Ratelimit      internal/ratelimit/ratelimit.go: the token bucket limiter.
--   Heal, Health   internal/heal/heal.go and internal/health/health.go, over a Runner of commands.
--   State          internal/state/config.go (the configuration and the values drawn from the tunnel's UUID)
--                  and the client record of internal/state/client.go. `State.Store` is the store of clients
--                  of that file, on a directory of files; `State.Fingerprint` internal/state/fingerprint.go;
--                  `State.Beat` internal/state/health.go, the last beat of the RU node.
--   Subserver      internal/subserver/server.go: the EU node's HTTP handlers, over the limiter, the client
--                  store, the subscription and the RU node's document. `Subserver.Pulling` puts the pull of
--                  internal/pull against them.
--   Doctor         internal/doctor: `Doctor.RuNode` and `Doctor.EuNode` are runRU and runEU of doctor.go with
--                  their checks, `Doctor.Perms` is perms.go, `Doctor.Probes` what probes.go reads from
--                  answers, `Doctor.Checks` the report.
--   Tunnelprobe    internal/tunnelprobe/tunnelprobe.go: the client that the probe runs; `Tunnelprobe.Probing` is
--                  the probe through the node's own tunnel.
--   Cfsetup        internal/cfsetup/cfsetup.go: reading what cloudflared prints; `Cfconfig` is
--                  internal/cfconfig/cfconfig.go, cloudflared's ingress.
--   Cli            internal/cli: `Cli.Clients` has the lookup of a client by name (cli.go), `Cli.Cf` the
--                  setup of the Cloudflare tunnel (cf.go), over a world that the model does not look into,
--                  `Cli.Route` the refresh of the rule-set and the question to sing-box (route.go).
--   Singboxconf    internal/singboxconf/render.go: the configurations of the client and the nodes, as trees
--                  of `Json`.
--   Subscription   internal/subscription/subscription.go: the client's profile.
--   Routing        internal/routing/routing.go: where a rendered configuration sends a destination.
--   Backup         internal/backup/crypto.go: the archive's header and its sealing; `Backup.Restore` is
--                  Restore of internal/backup/backup.go.
--   Geoipupdate    internal/geoipupdate/geoipupdate.go: refreshing the RU node's rule-set.
--   Dest           internal/dest/dest.go: judging and ranking the sites a node may borrow a handshake from.
--   Controlchannel internal/controlchannel/controlchannel.go: the RU node's pull.env.
--   Pull           internal/pull/pull.go: fetching and installing the RU node's configuration.
--   Shellword      internal/shellword/shellword.go: splitting a command into an argv.
--   Common         what they share: Boolean tests, lists, text, association lists for Go's maps, results,
--                  sorting, base64, dates and durations as they are printed.
--
-- How the state corresponds. A Go string is a list of code points and a byte slice a list of numbers below
-- 256; `utf8` joins them. A map is an association list with one entry for each key. An error is a value of
-- the module's own type, one constructor for each place of the source that makes one. The system calls of
-- an update are numbered, and an environment answers each one, so every call may fail at every place. The
-- commands of Heal and Health run through a Runner that changes a world the model does not look into.
-- Mails go through a Mailer that may answer by all mails before. Times are nanoseconds.
--
-- A slice is a list, so a nil slice is not told from an empty one, and prints as `[]`. ToLower is that of
-- ASCII. A panic of argon2 on an archive's header is an error of decrypt.
--
-- Bounds. The limiter's float64 amounts are whole numbers of a fixed-point unit (`Ratelimit.unit`), for a
-- rate that is a whole number of tokens a second, as the program's one limiter has; rounding is not modelled,
-- and a rate that is not positive is zero. waitActive and httpGetBytes are
-- recursions over the source's own five and four attempts; no other loop needs fuel.
--
-- Parameters: Ed25519 and BLAKE2b (a record `Crypto`), Argon2 and XChaCha20-Poly1305 (`Primitives`),
-- SHA-256, gzip and tar, printing and parsing JSON text, net.ParseIP, the geoip matcher, the file system's
-- errors, systemd and the mail program. A hypothesis on them is a named record, as
-- `IsAead` of Backup.RoundTrip, and has an instance that stands in an Examples module.
--
-- Not modelled: TLS and HTTP below a response's status and body, the mail program, certificates, random
-- numbers, and the packages that only print, parse flags or run programs.
pub mod Alert
pub mod Backup
pub mod Cfconfig
pub mod Cfsetup
pub mod Cli
pub mod Common
pub mod Controlchannel
pub mod Dest
pub mod Doctor
pub mod Geoipupdate
pub mod Heal
pub mod Health
pub mod Json
pub mod Pull
pub mod Ratelimit
pub mod Routing
pub mod Selfupdate
pub mod Shellword
pub mod Singboxconf
pub mod State
pub mod Subscription
pub mod Subserver
pub mod Tunnelprobe
pub mod Verify
