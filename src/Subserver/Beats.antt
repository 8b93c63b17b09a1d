-- ===== src/Subserver/Beats.antt =====
-- What a request changes on the EU node: the last beat, and nothing else of the state directory.
use rdda.Common.{
  ℕ, ◌*◌, [], Option, none, some, Str, codes, ◌==◌, nat_eq, str_instance, has_prefix, take, ◌≡◌,
  ◌≢◌, refl, Bool-cases, inl, inr, ◌⊎◌, eq_iff, utf8,
}
use rdda.Common.Results.{ok, Result-cases}
use rdda.Health.{Report}
use rdda.Ratelimit.{allow}
use rdda.State.Beat.{BeatFiles, save_ru_health}
use rdda.State.Config.{Config}
use rdda.Subserver
use rdda.Subserver.{
  Request, Reply, Node, Env, control_token, client_ip, limited, ru_config, ru_health, serve,
  too_many,
}
use rdda.Subserver.Guarded.{Granted, checked_cases, limited_cases, bearer_of}

module _ {Text : Type 0} (e : Env Text) (r : Request) (now : ℕ) where
  -- The beat is as it was, or it is what SaveRUHealth makes of the report in the body.
  abbrev Stored : Node Text → BeatFiles Text → Type 0
  Stored n after =
      (rep : Report) × (e.read_report (take (64 * 1024) r.body) ≡ ok rep)
      × (after
          ≡ (save_ru_health e.disk e.print_beat (record { report = rep; received_at = now })
              n.beat).1)

  abbrev SameDisk : Node Text → Node Text → Type 0
  SameDisk m n = (m.config ≡ n.config) × (m.clients ≡ n.clients) × (m.beat ≡ n.beat)

  -- How the control channel's handler of beats ends.
  abbrev BeatEnd : Node Text → Node Text → Type 0
  BeatEnd n m =
      SameDisk m n
      ⊎ ((m.config ≡ n.config)
          × (m.clients ≡ n.clients)
          × (r.method ≡ codes "POST")
          × ((cfg : Config) × (n.config ≡ ok cfg)
              × (cfg.pull_token ≢ [])
              × (utf8 (control_token r) ≡ utf8 cfg.pull_token)
              × Stored n m.beat))

  saved_node :
      (o : Option Str × BeatFiles Text) (n : Node Text)
      → (Subserver.saved e o n).1 ≡ record n { beat = o.1 }
  unfolding Subserver.saved
  saved_node (some x, files) n = refl
  saved_node (none, files) n = refl

  ru_health-BeatEnd : (n : Node Text) → BeatEnd n (ru_health e r now n).1
  unfolding ru_health Subserver.decoded
  ru_health-BeatEnd n = elim (Bool-cases (r.method == codes "POST")) [
    | inr other ↦ rw other (inl (refl, refl, refl))
    | inl post ↦
        elim (checked_cases e r
          (λ cfg m. Subserver.decoded e now (e.read_report (take (64 * 1024) r.body)) m) n.config
          n) [
            | inl (same, refused) ↦ rw (post, same) (inl (refl, refl, refl))
            | inr (cfg, loaded, enabled, token, through) ↦
                elim (Result-cases (e.read_report (take (64 * 1024) r.body))) [
                  | inr (x, bad) ↦ rw (post, through, bad) (inl (refl, refl, refl))
                  | inl (rep, good) ↦
                      rw (post, through, good, saved_node)
                        (inr (
                          refl,
                          refl,
                          (eq_iff r.method (codes "POST")).0 post,
                          (cfg, loaded, enabled, token, (rep, refl, refl)),
                        ))
                ]
          ]
  ]

  -- What a request does to the state directory.
  abbrev pub Effect : Node Text → Node Text → Type 0
  Effect n m =
      SameDisk m n
      ⊎ ((m.config ≡ n.config)
          × (m.clients ≡ n.clients)
          × (r.path ≡ codes "/ru/health")
          × (r.method ≡ codes "POST")
          × ((cfg : Config) × Granted e r now n cfg × Stored n m.beat))

  charged : Node Text → Node Text
  charged n = record n { limiter = (allow n.limiter (client_ip e r) now).1 }

  ru_config-SameDisk : (n : Node Text) → SameDisk (ru_config e r n).1 n
  unfolding ru_config
  ru_config-SameDisk n =
      elim (checked_cases e r
        (λ cfg m. (Subserver.ru_listed e cfg (Subserver.list_clients e.read_client m.clients), m))
        n.config n) [
          | inl (same, refused) ↦ rw same (refl, refl, refl)
          | inr (cfg, loaded, enabled, token, through) ↦ rw through (refl, refl, refl)
        ]

  limited-ru_config : (n : Node Text) → SameDisk (limited e (λ m. ru_config e r m) r now n).1 n
  unfolding charged
  limited-ru_config n = elim (limited_cases e r (λ m. ru_config e r m) now n) [
    | inr many ↦ rw many (refl, refl, refl)
    | inl (within, ran) ↦ rw ran (ru_config-SameDisk (charged n))
  ]

  limited-ru_health :
      (n : Node Text)
      → r.path ≡ codes "/ru/health"
      → Effect n (limited e (λ m. ru_health e r now m) r now n).1
  unfolding charged
  limited-ru_health n path = elim (limited_cases e r (λ m. ru_health e r now m) now n) [
    | inr many ↦ rw many (inl (refl, refl, refl))
    | inl (within, ran) ↦ rw ran (elim (ru_health-BeatEnd (charged n)) [
      | inl same ↦ inl same
      | inr (c, d, post, (cfg, loaded, enabled, token, after)) ↦ inr (
        c,
        d,
        path,
        post,
        (
          cfg,
          record {
            within = within;
            loaded = loaded;
            enabled = enabled;
            bearer = bearer_of r cfg.pull_token enabled token;
            token = token;
          },
          after,
        ),
      )
    ])
  ]

  -- Whatever the request, the configuration and the clients stay as they are; the beat changes only for
  -- a POST to /ru/health within the caller's limit with the bearer token that the configuration has and
  -- that is not empty, and then to what SaveRUHealth makes of the report in the first 64 KiB of its body.
  pub serve-Effect : (n : Node Text) → Effect n (serve e r now n).1
  unfolding serve
  serve-Effect n = elim (Bool-cases (has_prefix r.path (codes "/sub/"))) [
    | inl sub ↦ rw sub (inl (refl, refl, refl))
    | inr s ↦ elim (Bool-cases (r.path == codes "/ru/config")) [
      | inl config ↦ rw (s, config) (inl (limited-ru_config n))
      | inr c ↦ elim (Bool-cases (r.path == codes "/ru/health")) [
        | inl health ↦
            rw (s, c, health) (limited-ru_health n ((eq_iff r.path (codes "/ru/health")).0 health))
        | inr h ↦ rw (s, c, h) (inl (refl, refl, refl))
      ]
    ]
  ]
