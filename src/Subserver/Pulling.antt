-- ===== src/Subserver/Pulling.antt =====
-- The RU node's pull against the EU node's handler: internal/pull and internal/subserver together.
use rdda.Common.{
  ℕ, suc, zero, ◌≤◌, true, List, [], ◌∷◌, ◌++◌, none, some, Str, codes, nat_eq, str_instance,
  if◌then◌else◌, has_prefix, take, length, ◌≡◌, ◌≢◌, refl, sym, ◌∙◌, ap, arith, not_eq, Bool-cases,
  inl, inr, str_eq, str_eq_refl, utf8, has_prefix-append, drop_prefix-append,
}
use rdda.Common.Results.{ok}
use rdda.Pull
use rdda.Pull.{Options, RuNode, run, fetched, staged, request_of, body_limit}
use rdda.Ratelimit.{allow}
use rdda.Singboxconf.Nodes.{render_ru}
use rdda.State.Clients.{Client}
use rdda.State.Config.{Config}
use rdda.State.Store.{list_clients}
use rdda.Subserver.{
  Request, Reply, Node, Env, control_token, same_bytes, client_ip, limited, ru_config, serve,
}

take_all {ℓ} : {A : Type ℓ} (n : ℕ) (xs : List A) → length xs ≤ n → take n xs ≡ xs
take_all zero [] h = refl
take_all zero (x ∷ xs) h = absurd (omega arith)
take_all (suc n) [] h = refl
take_all (suc n) (x ∷ xs) h = ap (λ r. x ∷ r) (take_all n xs (omega arith))

control_token_bearer :
    (r : Request) (token : Str)
    → r.authorization ≡ codes "Bearer " ++ token
    → control_token r ≡ token
unfolding control_token
control_token_bearer r token h =
    rw (h, has_prefix-append (codes "Bearer ") token) (drop_prefix-append (codes "Bearer ") token)

-- The EU node has the channel on, reads its clients, and renders this document.
pub record Ready {Text : Type 0} (e : Env Text) (n : Node Text) (cfg : Config) (cs : List Client)
    (body : Str) : Type 0 where
  pub loaded : n.config ≡ ok cfg
  pub enabled : cfg.pull_token ≢ []
  pub listed : list_clients e.read_client n.clients ≡ ok cs
  pub printed : e.indented (render_ru cfg cs) ≡ ok body

-- The request arrives at /ru/config with its header, from a caller within its limit.
pub record Arrives {Text : Type 0} (e : Env Text) (n : Node Text) (now : ℕ) (o : Options)
    (r : Request) : Type 0 where
  pub path : r.path ≡ codes "/ru/config"
  pub header : r.authorization ≡ (request_of o).authorization
  pub within : (allow n.limiter (client_ip e r) now).0 ≡ true

-- The RU node's side works: the fetch gives the handler's reply, and nothing else fails.
pub record Works (p : Pull.Env) (o : Options) (reply : Reply) : Type 0 where
  pub built : p.build o.url ≡ none
  pub answer :
      p.fetch (request_of o) ≡ ok (record { status = reply.status; body = ok (utf8 reply.body) })
  pub fits : length (utf8 reply.body) ≤ body_limit
  pub object : p.decode_object (utf8 reply.body) ≡ none
  pub temp : p.create_temp ≡ none
  pub write : p.write ≡ none
  pub close : p.close ≡ none
  pub chmod : p.chmod ≡ none
  pub rename : p.rename ≡ none
  pub reload : p.reload ≡ none

module _ {Text : Type 0} (e : Env Text) (n : Node Text) (cfg : Config) (cs : List Client)
    (body : Str) where
  abbrev document : Reply
  document = record {
    status = 200;
    headers = (codes "Content-Type", codes "application/json") ∷ [];
    body = body;
  }

  ru_config_serves :
      (r : Request) (m : Node Text)
      → Ready e m cfg cs body
      → control_token r ≡ cfg.pull_token
      → ru_config e r m ≡ (document, m)
  unfolding ru_config same_bytes
  ru_config_serves r m ready token =
      rw
        (
          ready.loaded,
          not_eq cfg.pull_token [] ready.enabled,
          token,
          str_eq_refl (utf8 cfg.pull_token),
          ready.listed,
          ready.printed,
        )
        refl

  serve-document :
      (r : Request) (now : ℕ) (o : Options)
      → Ready e n cfg cs body
      → Arrives e n now o r
      → o.token ≡ cfg.pull_token
      → (serve e r now n).0 ≡ document
  unfolding serve limited has_prefix str_eq request_of
  serve-document r now o ready arrives token =
      let bearer = control_token_bearer r o.token arrives.header ∙ token in
      let m = record n { limiter = (allow n.limiter (client_ip e r) now).1 } in
      let kept : Ready e m cfg cs body = record {
        loaded = ready.loaded;
        enabled = ready.enabled;
        listed = ready.listed;
        printed = ready.printed;
      } in
      let at_path : serve e r now n ≡ limited e (λ q. ru_config e r q) r now n =
        rw arrives.path refl in
      let inside : limited e (λ q. ru_config e r q) r now n ≡ ru_config e r m =
        rw arrives.within refl in
      ap (λ q. q.0) (at_path ∙ (inside ∙ ru_config_serves r m kept bearer))

  -- An RU node that pulls, over a path that works, with the token that the EU node's configuration has and
  -- that is not empty, within its limit, ends without an error; its configuration is the document that the EU
  -- node renders for its stored clients, and sing-box was reloaded once if a reload is asked for.
  pub pull_serves :
      (p : Pull.Env) (o : Options) (r : Request) (now : ℕ) (node : RuNode)
      → Ready e n cfg cs body
      → Arrives e n now o r
      → o.token ≡ cfg.pull_token
      → Works p o (serve e r now n).0
      → run p o node ≡ (
        none,
        record {
          config = some (utf8 body);
          reloads = if o.has_reload then suc node.reloads else node.reloads;
        },
      )
  unfolding run fetched staged request_of
  pull_serves p o r now node ready arrives token works =
      let served = serve-document r now o ready arrives token in
      let answered : p.fetch (request_of o) ≡ ok (record { status = 200; body = ok (utf8 body) }) =
        works.answer
        ∙ ap (λ q. ok (record { status = q.status; body = ok (utf8 q.body) })) served in
      let cut : take body_limit (utf8 body) ≡ utf8 body =
        take_all body_limit (utf8 body) (rw (sym (ap (λ q. q.body) served)) works.fits) in
      let object : p.decode_object (utf8 body) ≡ none =
        ap (λ q. p.decode_object (utf8 q.body)) (sym served) ∙ works.object in
      rw
        (
          works.built, answered, cut, object, works.temp, works.write, works.close, works.chmod,
          works.rename,
        )
        (elim (Bool-cases o.has_reload) [ inl b ↦ rw (b, works.reload) refl | inr b ↦ rw b refl ])
