-- ===== src/Cli/Clients/Listing.antt =====
-- internal/state/client.go: the list that ListClients makes of a valid directory of clients.
use mathlib.Core.Bool.{true≢false}
use rdda.Common.{
  none-some, Bool, true, false, List, [], ◌∷◌, ◌++◌, none, some, Str, codes, ◌==◌, nat_eq,
  str_instance, if◌then◌else◌, has_suffix, has_suffix_cut, has_suffix-append, ◌≡◌, refl, arith,
  Bool-cases, inl, inr, eq_iff, sym, ◌∙◌, str_eq, str_eq_refl, str_eq_iff, ap,
}
use rdda.Common.Assoc.{lookup, Distinct}
use rdda.Common.Results.{Result, ok}
use rdda.Common.Sorting.{insert_sorted, sort}
use rdda.State.Clients.{Client}
use rdda.State.Store.{
  Entry, subdirectory, unreadable, file, Dir, client_file_name, read_entry, is_listed, read_entries,
  list_clients,
}
use rdda.State.Store.Register.{view}
use rdda.State.Store.Validity.{Holds, IsValid, file_name_eq}
use rdda.Cli.Clients.{find_name}

-- No name twice.
abbrev pub NameOnce : List Client → Type 0
NameOnce [] = Unit
NameOnce (c ∷ cs) = (find_name c.name cs ≡ none) × NameOnce cs

module _ (before : Client → Client → Bool) where
  find_name-insert_sorted :
      (name : Str) (c : Client) (cs : List Client)
      → find_name c.name cs ≡ none
      → find_name name (insert_sorted before c cs) ≡ find_name name (c ∷ cs)
  unfolding find_name insert_sorted
  find_name-insert_sorted name c [] fresh = refl
  find_name-insert_sorted name c (b ∷ cs) fresh = ground (
    arith,
    find_name-insert_sorted name c cs,
    eq_iff b.name name,
    eq_iff c.name name,
    eq_iff b.name c.name,
  )

  insert_sorted-NameOnce :
      (c : Client) (cs : List Client)
      → find_name c.name cs ≡ none
      → NameOnce cs
      → NameOnce (insert_sorted before c cs)
  unfolding find_name insert_sorted
  insert_sorted-NameOnce c [] fresh once = (refl, tt)
  insert_sorted-NameOnce c (b ∷ cs) fresh (fresh_b, once) = elim (Bool-cases (before b c)) [
    | inl ahead ↦ rw ahead (still_fresh, insert_sorted-NameOnce c cs fresh_c once)
    | inr behind ↦ rw behind (fresh, (fresh_b, once))
  ]
    where
      fresh_c : find_name c.name cs ≡ none
      fresh_c = ground arith

      still_fresh : find_name b.name (insert_sorted before c cs) ≡ none
      still_fresh = ground (
        arith,
        find_name-insert_sorted b.name c cs fresh_c,
        eq_iff b.name c.name,
        eq_iff c.name b.name,
      )

  sorted_lookup :
      (cs : List Client)
      → NameOnce cs
      → NameOnce (sort before cs)
        × ((name : Str) → find_name name (sort before cs) ≡ find_name name cs)
  unfolding sort find_name
  sorted_lookup [] once = (tt, λ name. refl)
  sorted_lookup (c ∷ cs) (fresh, once) =
      let (once', same) = sorted_lookup cs once in
      let fresh' : find_name c.name (sort before cs) ≡ none = same c.name ∙ fresh in
      (
        insert_sorted-NameOnce c (sort before cs) fresh' once',
        λ name. find_name-insert_sorted name c (sort before cs) fresh' ∙ ground (arith, same name),
      )

module _ {Text : Type 0} (unmarshal : Text → Result Str Client) where
  -- The clients that the loop over the entries gathers.
  abbrev Gathers : Dir Text → Type 0
  Gathers d =
      (cs : List Client) × (read_entries unmarshal d ≡ ok cs)
      × NameOnce cs
      × ((name : Str) → find_name name cs ≡ view unmarshal d name)

  tail-Holds :
      (k : Str) (n : Entry Text) (d : Dir Text)
      → lookup k d ≡ none
      → Holds unmarshal ((k, n) ∷ d)
      → Holds unmarshal d
  unfolding lookup
  tail-Holds k n d fresh h name m p = elim (Bool-cases (str_eq k (client_file_name name))) [
    | inl b ↦ absurd (
        none-some
          (sym fresh ∙ (ap (λ q. lookup q d) ((str_eq_iff k (client_file_name name)).0 b) ∙ p)))
    | inr b ↦ h name m (rw b p)
  ]

  view-cons :
      (s : Str) (n : Entry Text) (d : Dir Text) (c : Client) (name : Str)
      → read_entry unmarshal n ≡ ok c
      → view unmarshal ((client_file_name s, n) ∷ d) name
        ≡ (if s == name then some c else view unmarshal d name)
  unfolding lookup view
  view-cons s n d c name h = elim (Bool-cases (s == name)) [
    | inl b ↦ rw (file_name_eq s name, b, h) refl
    | inr b ↦ rw (file_name_eq s name, b) refl
  ]

  listed_client :
      (k : Str) (n : Entry Text) (d : Dir Text)
      → is_listed k n ≡ true
      → Holds unmarshal ((k, n) ∷ d)
      → (c : Client) × (read_entry unmarshal n ≡ ok c) × (k ≡ client_file_name c.name)
  unfolding is_listed lookup client_file_name
  listed_client k n d listed h =
      let suffix : has_suffix k (codes ".json") ≡ true = ground arith in
      let (s, cut) = has_suffix_cut k (codes ".json") suffix in
      let here : lookup (client_file_name s) ((k, n) ∷ d) ≡ some n =
        rw (cut, str_eq_refl (s ++ codes ".json")) refl in
      let (c, read, same) = h s n here in (c, read, rw same cut)

  listed_if :
      (k : Str) (n : Entry Text) {c : Client}
      → read_entry unmarshal n ≡ ok c
      → has_suffix k (codes ".json") ≡ true
      → is_listed k n ≡ true
  unfolding is_listed read_entry
  listed_if k subdirectory h s = cc
  listed_if k (unreadable x) h s = rw s refl
  listed_if k (file t) h s = rw s refl

  skipped :
      (k : Str) (n : Entry Text) (d : Dir Text) (name : Str)
      → is_listed k n ≡ false
      → Holds unmarshal ((k, n) ∷ d)
      → (k == client_file_name name) ≡ false
  unfolding is_listed lookup client_file_name
  skipped k n d name off h = elim (Bool-cases (k == client_file_name name)) [
    | inr b ↦ b
    | inl b ↦
        let key = (str_eq_iff k (client_file_name name)).0 b in
        let suffix : has_suffix k (codes ".json") ≡ true =
          rw key (has_suffix-append name (codes ".json")) in
        let here : lookup (client_file_name name) ((k, n) ∷ d) ≡ some n = rw b refl in
        let (c, read, same) = h name n here in
        absurd (true≢false (sym (listed_if k n read suffix) ∙ off))
  ]

  head_name :
      (k : Str) (n : Entry Text) (d : Dir Text) (c : Client) (cs : List Client)
      → k ≡ client_file_name c.name
      → read_entry unmarshal n ≡ ok c
      → ((name : Str) → find_name name cs ≡ view unmarshal d name)
      → (name : Str) → find_name name (c ∷ cs) ≡ view unmarshal ((k, n) ∷ d) name
  unfolding find_name
  head_name k n d c cs key here same name =
      ap (λ rest. if c.name == name then some c else rest) (same name)
      ∙ sym (ap (λ q. view unmarshal ((q, n) ∷ d) name) key ∙ view-cons c.name n d c name here)

  gathered : (d : Dir Text) → Holds unmarshal d → Distinct d → Gathers d
  unfolding read_entries find_name lookup view
  gathered [] h once = ([], refl, tt, λ name. refl)
  gathered ((k, n) ∷ d) h (fresh, once) =
      let (cs, read, names, same) = gathered d (tail-Holds k n d fresh h) once in
      elim (Bool-cases (is_listed k n)) [
        | inl on ↦
            let (c, here, key) = listed_client k n d on h in
            rw (on, here, read)
              (
                c ∷ cs,
                refl,
                (same c.name ∙ rw (← key, fresh) refl, names),
                head_name k n d c cs key here same,
              )
        | inr off ↦
            rw (off, read) (cs, refl, names, λ name. same name ∙ rw (skipped k n d name off h) refl)
      ]

  -- What the list of a valid directory is: sorted, each name once, and the name's client by name.
  abbrev pub Listed : Dir Text → List Client → Type 0
  Listed d cs =
      (list_clients unmarshal (ok d) ≡ ok cs)
      × NameOnce cs
      × ((name : Str) → find_name name cs ≡ view unmarshal d name)

  pub listed : (d : Dir Text) → IsValid unmarshal d → (cs : List Client) × Listed d cs
  unfolding list_clients
  listed d (held, once) =
      let (cs, read, names, same) = gathered d held once in
      let (names', same') = sorted_lookup _ cs names in
      rw read (_, (refl, names', λ name. same' name ∙ same name))
