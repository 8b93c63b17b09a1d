-- ===== src/State/Store/Validity.antt =====
-- Directories of clients that hold under each client's file name that client, and each name once: kept
-- by insertion and deletion, which read as the register's.
use mathlib.Core.Path.{fun_ext}
use mathlib.Core.List.{append_cancel_right}
use mathlib.Core.Bool.{true≢false}
use rdda.Common.{
  none-some, some_inj, ◌++◌, none, some, Str, codes, ◌==◌, nat_eq, str_instance, if◌then◌else◌,
  is_some, ◌≡◌, refl, Bool-cases, Option-cases, inl, inr, eq_iff, sym, ◌∙◌, str_eq_refl, not_eq,
}
use rdda.Common.Assoc.{
  lookup, insert, delete, lookup-insert, lookup-delete, Distinct, insert-Distinct, delete-Distinct,
}
use rdda.Common.Results.{Result, ok}
use rdda.State.Clients.{Client}
use rdda.State.Store.{Entry, file, Dir, client_file_name, read_entry}
use rdda.State.Store.Register.{put, drop_name, view}

pub file_name_eq : (a b : Str) → (client_file_name a == client_file_name b) ≡ (a == b)
unfolding client_file_name
file_name_eq a b = elim (Bool-cases (a == b)) [
  | inl same ↦ rw ((eq_iff a b).0 same, (eq_iff b b).1 refl) (str_eq_refl (b ++ codes ".json"))
  | inr other ↦ rw other (
      not_eq _ _ λ p.
        absurd
          (true≢false (sym ((eq_iff a b).1 (append_cancel_right a b (codes ".json") p)) ∙ other)))
]

module _ {Text : Type 0} (unmarshal : Text → Result Str Client) where
  -- A file with a client's file name holds that client; each name stands once.
  abbrev pub Holds : Dir Text → Type 0
  Holds d =
      (name : Str) (n : Entry Text)
      → lookup (client_file_name name) d ≡ some n
      → (c : Client) × (read_entry unmarshal n ≡ ok c) × (c.name ≡ name)

  abbrev pub IsValid : Dir Text → Type 0
  IsValid d = Holds d × Distinct d

  pub is_some-view :
      (d : Dir Text) (name : Str)
      → Holds d
      → is_some (lookup (client_file_name name) d) ≡ is_some (view unmarshal d name)
  unfolding view
  is_some-view d name h = elim (Option-cases (lookup (client_file_name name) d)) [
    | inl p ↦ rw p refl
    | inr (n, p) ↦ let (c, q, _) = h name n p in rw (p, q) refl
  ]

  lookup-insert_file :
      (d : Dir Text) (new : Entry Text) (name other : Str)
      → lookup (client_file_name other) (insert (client_file_name name) new d)
        ≡ (if name == other then some new else lookup (client_file_name other) d)
  lookup-insert_file d new name other =
      rw
        (
          lookup-insert (client_file_name name) (client_file_name other) new d,
          file_name_eq name other,
        )
        refl

  lookup-delete_file :
      (d : Dir Text) (name other : Str)
      → lookup (client_file_name other) (delete (client_file_name name) d)
        ≡ (if name == other then none else lookup (client_file_name other) d)
  lookup-delete_file d name other =
      rw (lookup-delete (client_file_name name) (client_file_name other) d, file_name_eq name other)
        refl

  pub view-insert :
      (d : Dir Text) (c : Client) (t : Text)
      → unmarshal t ≡ ok c
      → view unmarshal (insert (client_file_name c.name) (file t) d) ≡ put c (view unmarshal d)
  unfolding view read_entry
  view-insert d c t h = fun_ext λ name. elim (Bool-cases (c.name == name)) [
    | inl b ↦ rw (lookup-insert_file d (file t) c.name name, b, h) refl
    | inr b ↦ rw (lookup-insert_file d (file t) c.name name, b) refl
  ]

  pub view-delete :
      (d : Dir Text) (gone : Str)
      → view unmarshal (delete (client_file_name gone) d) ≡ drop_name gone (view unmarshal d)
  unfolding view
  view-delete d gone = fun_ext λ name. elim (Bool-cases (gone == name)) [
    | inl b ↦ rw (lookup-delete_file d gone name, b) refl
    | inr b ↦ rw (lookup-delete_file d gone name, b) refl
  ]

  pub insert-IsValid :
      (d : Dir Text) (c : Client) (t : Text)
      → unmarshal t ≡ ok c
      → IsValid d
      → IsValid (insert (client_file_name c.name) (file t) d)
  unfolding read_entry
  insert-IsValid d c t h (held, distinct) =
      (inserted, insert-Distinct (client_file_name c.name) (file t) d distinct)
    where
      inserted : Holds (insert (client_file_name c.name) (file t) d)
      inserted name n p = elim (Bool-cases (c.name == name)) [
        | inl b ↦
            let q : file t ≡ n =
              some_inj (rw (lookup-insert_file d (file t) c.name name, b) at p) in
            (c, rw (← q) h, (eq_iff c.name name).0 b)
        | inr b ↦ held name n (rw (lookup-insert_file d (file t) c.name name, b) at p)
      ]

  pub delete-IsValid :
      (d : Dir Text) (gone : Str) → IsValid d → IsValid (delete (client_file_name gone) d)
  delete-IsValid d gone (held, distinct) =
      (deleted, delete-Distinct (client_file_name gone) d distinct)
    where
      deleted : Holds (delete (client_file_name gone) d)
      deleted name n p = elim (Bool-cases (gone == name)) [
        | inl b ↦ absurd (none-some (rw (lookup-delete_file d gone name, b) at p))
        | inr b ↦ held name n (rw (lookup-delete_file d gone name, b) at p)
      ]
