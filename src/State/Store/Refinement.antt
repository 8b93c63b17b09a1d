-- ===== src/State/Store/Refinement.antt =====
-- AddClientWithFingerprint and RemoveClient of internal/state/client.go behave as calls on the
-- register, on a file system that does not fail and for names that stand directly in the clients'
-- directory.
use rdda.Common.{
  Bool, true, false, List, [], ◌∷◌, none, some, Str, nat_eq, str_instance, trim_space, is_some, ◌≡◌,
  refl, Bool-cases, Option-cases, inl, inr, ◌∙◌, ap, All,
}
use rdda.Common.Assoc.{lookup, insert, delete}
use rdda.Common.Results.{Result, ok, err}
use rdda.State.Clients.{Client}
use rdda.State.Store.{
  file, Dir, StoreError, not_found, Fresh, Env, client_file_name, client_path, entry_of, stat,
  add_client_with_fingerprint, remove_client, write_file, remove_file,
}
use rdda.State.Store.Register.{
  refusal, drawn_client, new_client-refusal, Call, add, remove, answer, replay, target, view, apply,
  run,
}
use rdda.State.Store.Validity.{
  IsValid, is_some-view, view-insert, view-delete, insert-IsValid, delete-IsValid,
}

-- The path made of the name stands directly in the clients' directory.
abbrev pub Plain : Str → Str → Type 0
Plain dir name = entry_of dir (client_path dir name) ≡ some (client_file_name name)

-- Nothing that the file system is asked to write or to remove fails.
abbrev pub Calm : {Text : Type 0} → Env Text → Type 0
Calm e = ((path : Str) → e.write path ≡ none) × ((path : Str) → e.remove path ≡ none)

-- The printer and the parser of a client's file.
abbrev pub Codec :
    {Text : Type 0} → (Client → Result Str Text) → (Text → Result Str Client) → Type 0
Codec {Text = Text} marshal unmarshal =
    (c : Client) → (t : Text) × (marshal c ≡ ok t) × (unmarshal t ≡ ok c)

module _ {Text : Type 0} (marshal : Client → Result Str Text) (unmarshal : Text → Result Str Client)
    (dir : Str) (e : Env Text) where
  stat-Plain :
      (name : Str) (d : Dir Text)
      → Plain dir name
      → stat dir e (client_path dir name) d ≡ is_some (lookup (client_file_name name) d)
  unfolding stat
  stat-Plain name d h = rw h refl

  -- One call leaves a valid directory that reads as the register after the same call, and answers
  -- the same.
  abbrev Follows : Call → Dir Text → Type 0
  Follows op d =
      IsValid unmarshal (apply marshal dir e op d).1
      × (view unmarshal (apply marshal dir e op d).1 ≡ (answer op (view unmarshal d)).1)
      × ((apply marshal dir e op d).0 ≡ (answer op (view unmarshal d)).0)

  remove_client_present :
      (name : Str) (d : Dir Text)
      → Calm e
      → Plain dir name
      → is_some (lookup (client_file_name name) d) ≡ true
      → remove_client dir e name d ≡ (none, delete (client_file_name name) d)
  unfolding remove_client remove_file
  remove_client_present name d calm plain here =
      rw (stat-Plain name d plain, here, calm.1 (client_path dir name), plain) refl

  remove_client_absent :
      (name : Str) (d : Dir Text)
      → Plain dir name
      → is_some (lookup (client_file_name name) d) ≡ false
      → remove_client dir e name d ≡ (some (not_found name), d)
  unfolding remove_client
  remove_client_absent name d plain gone = rw (stat-Plain name d plain, gone) refl

  remove-Follows :
      (name : Str) (d : Dir Text)
      → Calm e
      → Plain dir name
      → IsValid unmarshal d
      → Follows (remove name) d
  unfolding apply answer
  remove-Follows name d calm plain valid = elim (Bool-cases (is_some (view unmarshal d name))) [
    | inl b ↦
        rw (remove_client_present name d calm plain (is_some-view unmarshal d name valid.0 ∙ b), b)
          (delete-IsValid unmarshal d name valid, view-delete unmarshal d name, refl)
    | inr b ↦
        rw (remove_client_absent name d plain (is_some-view unmarshal d name valid.0 ∙ b), b)
          (valid, refl, refl)
  ]

  abbrev taken : Str → Dir Text → Bool
  taken raw d = is_some (view unmarshal d (trim_space raw))

  stat_view :
      (raw : Str) (d : Dir Text)
      → Plain dir (trim_space raw)
      → IsValid unmarshal d
      → stat dir e (client_path dir (trim_space raw)) d
        ≡ is_some (view unmarshal d (trim_space raw))
  stat_view raw d plain valid =
      stat-Plain (trim_space raw) d plain ∙ is_some-view unmarshal d (trim_space raw) valid.0

  add_refused :
      (r : Fresh) (raw fp : Str) (d : Dir Text) (x : StoreError)
      → Plain dir (trim_space raw)
      → IsValid unmarshal d
      → refusal r (trim_space raw) fp (taken raw d) ≡ some x
      → add_client_with_fingerprint marshal dir e r raw fp d ≡ (err x, d)
  unfolding add_client_with_fingerprint
  add_refused r raw fp d x plain valid h =
      rw (stat_view raw d plain valid, new_client-refusal r (trim_space raw) fp (taken raw d), h)
        refl

  add_made :
      (r : Fresh) (raw fp : Str) (d : Dir Text) (t : Text)
      → Calm e
      → Plain dir (trim_space raw)
      → IsValid unmarshal d
      → refusal r (trim_space raw) fp (taken raw d) ≡ none
      → marshal (drawn_client r (trim_space raw) fp) ≡ ok t
      → add_client_with_fingerprint marshal dir e r raw fp d ≡ (
        ok (drawn_client r (trim_space raw) fp),
        insert (client_file_name (trim_space raw)) (file t) d,
      )
  unfolding add_client_with_fingerprint write_file
  add_made r raw fp d t calm plain valid h printed =
      rw
        (
          stat_view raw d plain valid,
          new_client-refusal r (trim_space raw) fp (taken raw d),
          h,
          printed,
          calm.0 (client_path dir (trim_space raw)),
          plain,
        )
        refl

  add-Follows :
      (r : Fresh) (raw fp : Str) (d : Dir Text)
      → Codec marshal unmarshal
      → Calm e
      → Plain dir (trim_space raw)
      → IsValid unmarshal d
      → Follows (add r raw fp) d
  unfolding apply answer drawn_client
  add-Follows r raw fp d codec calm plain valid =
      elim (Option-cases (refusal r (trim_space raw) fp (taken raw d))) [
        | inl h ↦
            let c : Client = drawn_client r (trim_space raw) fp in
            let (t, printed, read) = codec c in
            rw (add_made r raw fp d t calm plain valid h printed, h)
              (insert-IsValid unmarshal d c t read valid, view-insert unmarshal d c t read, refl)
        | inr (x, h) ↦ rw (add_refused r raw fp d x plain valid h, h) (valid, refl, refl)
      ]

  -- On a file system that fails no write and no removal, where the parser reads what the printer prints,
  -- and for calls whose names each stand for a file directly in the clients' directory: from a valid
  -- directory, any run of such calls leaves a valid directory that reads as the register after the same
  -- calls, and gives the same answers in order, the added clients included.
  pub run_refines :
      (ops : List Call) (d : Dir Text)
      → Codec marshal unmarshal
      → Calm e
      → All (λ op. Plain dir (target op)) ops
      → IsValid unmarshal d
      → IsValid unmarshal (run marshal dir e ops d).1
        × (view unmarshal (run marshal dir e ops d).1 ≡ (replay ops (view unmarshal d)).1)
        × ((run marshal dir e ops d).0 ≡ (replay ops (view unmarshal d)).0)
  unfolding run replay
  run_refines [] d codec calm plain valid = (valid, refl, refl)
  run_refines (add r raw fp ∷ ops) d codec calm (p, plain) valid =
      let (kept, reads, says) = add-Follows r raw fp d codec calm p valid in
      let (kept', reads', says') = run_refines ops _ codec calm plain kept in
      rw (← reads, ← says) (kept', reads', ap (◌∷◌ (apply marshal dir e (add r raw fp) d).0) says')
  run_refines (remove name ∷ ops) d codec calm (p, plain) valid =
      let (kept, reads, says) = remove-Follows name d calm p valid in
      let (kept', reads', says') = run_refines ops _ codec calm plain kept in
      rw (← reads, ← says) (kept', reads', ap (◌∷◌ (apply marshal dir e (remove name) d).0) says')
