-- ===== src/Subserver/Profiles.antt =====
-- Which profile /sub/ serves.
use mathlib.Core.Bool.{true≢false}
use rdda.Common.{
  false, [], ◌++◌, some, Str, ◌==◌, str_instance, ◌≡◌, ◌≢◌, refl, sym, ◌∙◌, Bool-cases, inl, inr,
  ◌⊎◌, eq_iff,
}
use rdda.Common.Results.{ok, err, Result-cases}
use rdda.Cli.Clients.Lookup.{client_by_token-view}
use rdda.State.Clients.{Client}
use rdda.State.Config.{Config, profile_title_or}
use rdda.State.Store.{Dir}
use rdda.State.Store.Register.{view}
use rdda.State.Store.Validity.{IsValid}
use rdda.Subscription.{build, import_header}
use rdda.Subserver
use rdda.Subserver.{Reply, Node, Env, sub, fail, not_found}

apart : (token : Str) → (token == []) ≡ false → token ≢ []
apart token given p = true≢false (sym ((eq_iff token []).1 p) ∙ given)

module _ {Text : Type 0} (e : Env Text) (n : Node Text) where
  -- What keeps a profile from being served.
  abbrev Failed : Client → Type 0
  Failed c =
      ((x : Str) × (n.config ≡ err x))
      ⊎ ((cfg : Config) × (x : Str) × (n.config ≡ ok cfg)
          × (build e.indented e.compact e.parse cfg c ≡ err x))

  -- The profile built for the client, under the deployment's title; or an opaque error where config.yaml
  -- does not load or the profile cannot be built.
  abbrev Profile : Client → Reply → Type 0
  Profile c reply =
      ((reply ≡ fail) × Failed c)
      ⊎ ((cfg : Config) × (body : Str) × (n.config ≡ ok cfg)
          × (build e.indented e.compact e.parse cfg c ≡ ok body)
          × (reply.status ≡ 200)
          × (reply.body ≡ import_header (profile_title_or cfg) ++ body))

  sub_config-Profile : (c : Client) → Profile c (Subserver.sub_config e c n.config)
  unfolding Subserver.sub_config
  sub_config-Profile c = elim (Result-cases n.config) [
    | inr (x, p) ↦ rw p (inl (refl, inl (x, refl)))
    | inl (cfg, p) ↦ elim (Result-cases (build e.indented e.compact e.parse cfg c)) [
      | inr (x, q) ↦ rw (p, q) (inl (refl, inr (cfg, x, refl, q)))
      | inl (body, q) ↦ rw (p, q) (inr (cfg, body, refl, q, refl, refl))
    ]
  ]

  -- The clients of the directory d that have this token.
  abbrev pub Served : Dir Text → Str → Reply → Type 0
  Served d token reply =
      ((c : Client) × (token ≢ [])
        × (c.token ≡ token)
        × (view e.read_client d c.name ≡ some c)
        × Profile c reply)
      ⊎ ((reply ≡ not_found)
          × ((token ≡ [])
              ⊎ ((name : Str) (c : Client) → view e.read_client d name ≡ some c → c.token ≢ token)))

  -- With a valid directory of clients, a token that is empty or that no stored client has is answered by
  -- 404; any other token is that of a stored client, and is answered by the profile built for that client,
  -- or by a 500 where the configuration does not load or the profile is not built.
  pub sub-Served :
      (d : Dir Text) (token : Str)
      → n.clients ≡ ok d
      → IsValid e.read_client d
      → Served d token (sub e token n)
  unfolding sub
  sub-Served d token listing valid = elim (Bool-cases (token == [])) [
    | inl empty ↦ rw empty (inr (refl, inl ((eq_iff token []).0 empty)))
    | inr given ↦ elim (client_by_token-view e.read_client d token valid) [
      | inl (c, found, t, here) ↦
          rw (given, listing, found) (inl (c, apart token given, t, here, sub_config-Profile c))
      | inr (gone, nobody) ↦ rw (given, listing, gone) (inr (refl, inr nobody))
    ]
  ]
