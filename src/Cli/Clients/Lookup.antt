-- ===== src/Cli/Clients/Lookup.antt =====
-- internal/state/client.go and internal/cli/cli.go: what ClientByToken and findClientByName
-- find in a valid directory of clients.
use mathlib.Core.Bool.{true≢false}
use rdda.Common.{
  none-some, some_inj, List, [], ◌∷◌, none, some, Str, ◌==◌, nat_eq, str_instance, ◌≡◌, ◌≢◌, refl,
  Bool-cases, ◌⊎◌, Option-cases, inl, inr, eq_iff, sym, ◌∙◌, str_eq_refl, ap,
}
use rdda.Common.Results.{Result, ok}
use rdda.State.Clients.{Client}
use rdda.State.Store.{Dir, find_token, client_by_token}
use rdda.State.Store.Register.{view}
use rdda.State.Store.Validity.{IsValid}
use rdda.Cli.Clients.Listing.{NameOnce, listed}
use rdda.Cli.Clients.{find_name, found_or, find_client_by_name}

find_token_name :
    (token : Str) (cs : List Client) (c : Client)
    → NameOnce cs
    → find_token token cs ≡ some c
    → (c.token ≡ token) × (find_name c.name cs ≡ some c)
unfolding find_token find_name
find_token_name token [] c once h = cc
find_token_name token (b ∷ cs) c (fresh, once) h = elim (Bool-cases (b.token == token)) [
  | inl hit ↦
      let same : b ≡ c = some_inj (rw hit at h) in
      rw (← same) ((eq_iff b.token token).0 hit, rw (str_eq_refl b.name) refl)
  | inr miss ↦ let (t, n) = find_token_name token cs c once (rw miss at h) in (t, behind n)
]
  where
    behind : find_name c.name cs ≡ some c → find_name c.name (b ∷ cs) ≡ some c
    behind n = elim (Bool-cases (b.name == c.name)) [
      | inl e ↦
          absurd
            (none-some (sym fresh ∙ (ap (λ q. find_name q cs) ((eq_iff b.name c.name).0 e) ∙ n)))
      | inr e ↦ rw e n
    ]

find_token-none :
    (token name : Str) (cs : List Client) (c : Client)
    → find_token token cs ≡ none
    → find_name name cs ≡ some c
    → c.token ≢ token
unfolding find_token find_name
find_token-none token name [] c gone h = cc
find_token-none token name (b ∷ cs) c gone h = elim (Bool-cases (b.token == token)) [
  | inl hit ↦ cc
  | inr miss ↦ elim (Bool-cases (b.name == name)) [
    | inl here ↦
        let same : b ≡ c = some_inj (rw here at h) in
        λ p. true≢false (sym ((eq_iff b.token token).1 (ap (λ x. x.token) same ∙ p)) ∙ miss)
    | inr there ↦ find_token-none token name cs c (rw miss at gone) (rw there at h)
  ]
]

module _ {Text : Type 0} (unmarshal : Text → Result Str Client) (d : Dir Text) where
  -- In a valid directory, the lookup by name gives the client that the name's file holds, and
  -- fails with the name exactly where there is no such file.
  pub find_client_by_name-view :
      (name : Str)
      → IsValid unmarshal d
      → find_client_by_name unmarshal (ok d) name ≡ found_or name (view unmarshal d name)
  unfolding find_client_by_name
  find_client_by_name-view name valid =
      let (cs, (listing, names, same)) = listed unmarshal d valid in rw (listing, same name) refl

  -- In a valid directory, the lookup by token succeeds: it gives the client of a file, which has
  -- that token, or nothing, and then no file's client has it.
  pub client_by_token-view :
      (token : Str)
      → IsValid unmarshal d
      → ((c : Client) × (client_by_token unmarshal (ok d) token ≡ ok (some c))
          × (c.token ≡ token)
          × (view unmarshal d c.name ≡ some c))
        ⊎ ((client_by_token unmarshal (ok d) token ≡ ok none)
            × ((name : Str) (c : Client) → view unmarshal d name ≡ some c → c.token ≢ token))
  unfolding client_by_token
  client_by_token-view token valid =
      let (cs, (listing, names, same)) = listed unmarshal d valid in
      elim (Option-cases (find_token token cs)) [
        | inl gone ↦ inr (
          rw (listing, gone) refl,
          λ name c h. find_token-none token name cs c gone (same name ∙ h),
        )
        | inr (c, hit) ↦
            let (t, here) = find_token_name token cs c names hit in
            inl (c, rw (listing, hit) refl, t, sym (same c.name) ∙ here)
      ]
