-- ===== src/Subserver/Guarded.antt =====
-- What the EU node's handlers give and change only for a request with the control channel's token.
use mathlib.Core.Bool.{true≢false}
use rdda.Common.{
  ℕ, true, List, [], ◌∷◌, ◌++◌, Str, codes, ◌==◌, nat_eq, str_instance, has_prefix, utf8,
  has_prefix_cut, ◌≡◌, ◌≢◌, refl, sym, ◌∙◌, ap, arith, Bool-cases, inl, inr, ◌⊎◌, eq_iff, str_eq,
}
use rdda.Common.Results.{Result, ok, err, Result-cases}
use rdda.Ratelimit.{allow}
use rdda.Singboxconf.Nodes.{render_ru}
use rdda.State.Clients.{Client}
use rdda.State.Config.{Config}
use rdda.State.Store.{list_clients}
use rdda.Subserver
use rdda.Subserver.{
  Request, Reply, Node, Env, control_token, same_bytes, client_ip, limited, ru_config, ru_health,
  serve, too_many, not_found, fail, unauthorized,
}

utf8_empty : (s : Str) → utf8 s ≡ [] → s ≡ []
unfolding utf8
utf8_empty [] h = refl
utf8_empty (c ∷ s) h = ground arith

utf8_nothing : utf8 [] ≡ []
unfolding utf8
utf8_nothing = refl

-- The request carries the token that turns the channel on.
pub record Granted {Text : Type 0} (e : Env Text) (r : Request) (now : ℕ) (n : Node Text)
    (cfg : Config) : Type 0 where
  pub within : (allow n.limiter (client_ip e r) now).0 ≡ true
  pub loaded : n.config ≡ ok cfg
  pub enabled : cfg.pull_token ≢ []
  pub bearer : r.authorization ≡ codes "Bearer " ++ control_token r
  pub token : utf8 (control_token r) ≡ utf8 cfg.pull_token

pub bearer_of :
    (r : Request) (p : Str)
    → p ≢ []
    → utf8 (control_token r) ≡ utf8 p
    → r.authorization ≡ codes "Bearer " ++ control_token r
unfolding control_token
bearer_of r p enabled h = elim (Bool-cases (has_prefix r.authorization (codes "Bearer "))) [
  | inl b ↦ rw b (has_prefix_cut r.authorization (codes "Bearer ") b)
  | inr b ↦ absurd (enabled (utf8_empty p (sym (rw b at h) ∙ utf8_nothing)))
]

module _ {Text : Type 0} (e : Env Text) (r : Request) where
  -- Either the request is refused with the node as it was, or it is let through.
  pub checked_cases :
      (next : Config → Node Text → Reply × Node Text) (config : Result Str Config) (n : Node Text)
      → (((Subserver.checked e next r config n).1 ≡ n)
          × ((Subserver.checked e next r config n).0.status ≢ 200))
        ⊎ ((cfg : Config) × (config ≡ ok cfg)
            × (cfg.pull_token ≢ [])
            × (utf8 (control_token r) ≡ utf8 cfg.pull_token)
            × (Subserver.checked e next r config n ≡ next cfg n))
  unfolding Subserver.checked same_bytes
  checked_cases next (err x) n = inl (refl, λ p. absurd (omega arith))
  checked_cases next (ok cfg) n = elim (Bool-cases (cfg.pull_token == [])) [
    | inl off ↦ rw off (inl (refl, λ p. absurd (omega arith)))
    | inr set ↦ elim (Bool-cases (same_bytes (control_token r) cfg.pull_token)) [
      | inl same ↦
          rw (set, same)
            (inr (
              cfg,
              refl,
              (λ p. true≢false (sym ((eq_iff cfg.pull_token []).1 p) ∙ set)),
              (eq_iff (utf8 (control_token r)) (utf8 cfg.pull_token)).0 same,
              refl,
            ))
      | inr differs ↦ rw (set, differs) (inl (refl, λ p. absurd (omega arith)))
    ]
  ]

  -- What a /ru/config reply with status 200 holds.
  abbrev pub Rendered : Config → Node Text → Reply → Type 0
  Rendered cfg n reply =
      (cs : List Client) × (list_clients e.read_client n.clients ≡ ok cs)
      × (e.indented (render_ru cfg cs) ≡ ok reply.body)

  ru_listed-Rendered :
      (cfg : Config) (n : Node Text) (listing : Result Str (List Client))
      → list_clients e.read_client n.clients ≡ listing
      → (Subserver.ru_listed e cfg listing).status ≡ 200
      → Rendered cfg n (Subserver.ru_listed e cfg listing)
  unfolding Subserver.ru_listed Subserver.rendered
  ru_listed-Rendered cfg n (err x) h s = absurd (omega arith)
  ru_listed-Rendered cfg n (ok cs) h s = elim (Result-cases (e.indented (render_ru cfg cs))) [
    | inl (body, p) ↦ (cs, h, rw p refl)
    | inr (x, p) ↦ let clash : ◌≡◌ {A = ℕ} 500 200 = rw p at s in absurd (omega arith)
  ]

  ru_config_ok :
      (n : Node Text)
      → (ru_config e r n).0.status ≡ 200
      → (cfg : Config) × (n.config ≡ ok cfg)
        × (cfg.pull_token ≢ [])
        × (utf8 (control_token r) ≡ utf8 cfg.pull_token)
        × Rendered cfg n (ru_config e r n).0
  unfolding ru_config
  ru_config_ok n s =
      elim (checked_cases
        (λ cfg m. (Subserver.ru_listed e cfg (list_clients e.read_client m.clients), m)) n.config
        n) [
          | inl (same, refused) ↦ absurd (refused s)
          | inr (cfg, loaded, enabled, token, through) ↦ (
            cfg,
            loaded,
            enabled,
            token,
            rw through (
                ru_listed-Rendered cfg n (list_clients e.read_client n.clients) refl
                  (ap (λ q. q.0.status) (sym through) ∙ s)),
          )
        ]

  -- A call through `limited` that is not refused ran the handler on the charged bucket.
  pub limited_cases :
      (next : Node Text → Reply × Node Text) (now : ℕ) (n : Node Text)
      → (((allow n.limiter (client_ip e r) now).0 ≡ true)
          × (limited e next r now n
              ≡ next (record n { limiter = (allow n.limiter (client_ip e r) now).1 })))
        ⊎ (limited e next r now n
            ≡ (too_many, record n { limiter = (allow n.limiter (client_ip e r) now).1 }))
  unfolding limited
  limited_cases next now n = elim (Bool-cases (allow n.limiter (client_ip e r) now).0) [
    | inl b ↦ rw b (inl (refl, refl))
    | inr b ↦ rw b (inr refl)
  ]

  -- A reply of /ru/config with status 200 went to a request within the caller's limit, with the bearer
  -- token that the configuration has and that is not empty; its body is the RU node's document for the
  -- stored clients.
  pub ru_config-Granted :
      (now : ℕ) (n : Node Text)
      → r.path ≡ codes "/ru/config"
      → (serve e r now n).0.status ≡ 200
      → (cfg : Config) × Granted e r now n cfg × Rendered cfg n (serve e r now n).0
  unfolding serve has_prefix str_eq
  ru_config-Granted now n path s =
      let served : serve e r now n ≡ limited e (λ m. ru_config e r m) r now n = rw path refl in
      elim (limited_cases (λ m. ru_config e r m) now n) [
        | inr many ↦
            let clash : ◌≡◌ {A = ℕ} 429 200 = sym (ap (λ q. q.0.status) (served ∙ many)) ∙ s in
            absurd (omega arith)
        | inl (within, ran) ↦
            let through = served ∙ ran in
            let (cfg, loaded, enabled, token, body) =
              ru_config_ok _ (sym (ap (λ q. q.0.status) through) ∙ s) in
            (
              cfg,
              record {
                within = within;
                loaded = loaded;
                enabled = enabled;
                bearer = bearer_of r cfg.pull_token enabled token;
                token = token;
              },
              rw through body,
            )
      ]
