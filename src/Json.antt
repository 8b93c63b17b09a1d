-- ===== src/Json.antt =====
-- JSON documents as trees, and strconv.Atoi: what encoding/json and strconv do for the packages that
-- render and read sing-box configurations. Printing and parsing the text of a document are arguments of
-- the operations that use them.
use rdda.Common.{
  ℕ, ◌+◌, ◌-◌, ◌*◌, ◌^◌, suc, zero, Bool, ◌&&◌, List, [], ◌∷◌, Option, none, some, Str, ◌==◌,
  nat_eq, str_instance, leb, if◌then◌else◌,
}

-- A Go int.
pub data ℤ : Type 0 where
  pos : ℕ → ℤ
  negsuc : ℕ → ℤ

mutual
  pub data Json : Type 0 where
    null : Json
    boolean : Bool → Json
    number : ℤ → Json
    text : Str → Json
    array : Items → Json
    object : Members → Json

  pub data Items : Type 0 where
    no_items : Items
    item : Json → Items → Items

  pub data Members : Type 0 where
    no_members : Members
    member : Str → Json → Members → Members

-- An object and an array from a Go literal.
abbrev pub obj : List (Str × Json) → Members
obj [] = no_members
obj ((k, v) ∷ m) = member k v (obj m)

abbrev pub items : List Json → Items
items [] = no_items
items (j ∷ js) = item j (items js)

abbrev pub texts : List Str → Items
texts [] = no_items
texts (s ∷ ss) = item (text s) (texts ss)

-- `m[key]`, null where there is no such key.
unfoldable pub get : Str → Members → Json
get k no_members = null
get k (member j v m) = if j == k then v else get k m

abbrev pub digit : ℕ → Option ℕ
digit c = if leb 48 c && leb c 57 then some (c - 48) else none

-- The value of a text of digits, after those already read.
digits_from : ℕ → Str → Option ℕ
digits_from n [] = some n
digits_from n (c ∷ s) = elim (digit c) [ none ↦ none | some d ↦ digits_from (n * 10 + d) s ]

digits : Str → Option ℕ
unfolding digits_from
digits [] = none
digits (c ∷ s) = digits_from 0 (c ∷ s)

positive : ℕ → Option ℤ
positive n = if leb n (2 ^ 63 - 1) then some (pos n) else none

negative : ℕ → Option ℤ
negative zero = some (pos zero)
negative (suc n) = if leb (suc n) (2 ^ 63) then some (negsuc n) else none

on_digits : (ℕ → Option ℤ) → Option ℕ → Option ℤ
on_digits f none = none
on_digits f (some n) = f n

-- strconv.Atoi on a 64-bit machine.
unfoldable pub atoi : Str → Option ℤ
unfolding positive negative on_digits digits
atoi [] = none
atoi (c ∷ s) =
    if c == b'+'
    then on_digits positive (digits s)
    else if c == b'-'
    then on_digits negative (digits s)
    else on_digits positive (digits (c ∷ s))
