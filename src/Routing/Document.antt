-- ===== src/Routing/Document.antt =====
-- The part of a sing-box document that routing.go reads: its route, and how encoding/json fills it.
use rdda.Common.{Bool, true, false, List, [], ◌∷◌, Str, codes, str_instance}
use rdda.Common.Results.{Result, ok, err, ◌>>=◌}
use rdda.Json.{
  Json, null, boolean, text, array, object, Items, no_items, item, Members, no_members, get,
}

-- The struct that the document is decoded into.
pub record RouteDoc : Type 0 where
  pub rules : List Members
  pub final : Str
  pub rule_set : List (Str × Str)

-- The type tests `v.(string)`, `v.(bool)` and `v != nil`.
abbrev pub text_or_empty : Json → Str
text_or_empty (text s) = s
text_or_empty j = []

abbrev pub is_true : Json → Bool
is_true (boolean b) = b
is_true j = false

abbrev pub present : Json → Bool
present null = false
present j = true

abbrev type_mismatch : Str
type_mismatch = codes "json: cannot unmarshal"

-- encoding/json into a struct's field: null leaves the zero value, another type is an error. A field is
-- found by its exact name.
decode_text : Json → Result Str Str
decode_text null = ok []
decode_text (text s) = ok s
decode_text j = err type_mismatch

decode_object : Json → Result Str Members
decode_object null = ok no_members
decode_object (object m) = ok m
decode_object j = err type_mismatch

decode_rules : Items → Result Str (List Members)
unfolding decode_object
decode_rules no_items = ok []
decode_rules (item j js) = do m ← decode_object j; ms ← decode_rules js; ok (m ∷ ms)

decode_rule_set : Json → Result Str (Str × Str)
unfolding decode_object decode_text
decode_rule_set j = do
  m ← decode_object j
  tag ← decode_text (get (codes "tag") m)
  path ← decode_text (get (codes "path") m)
  ok (tag, path)

decode_rule_sets : Items → Result Str (List (Str × Str))
unfolding decode_rule_set
decode_rule_sets no_items = ok []
decode_rule_sets (item j js) = do r ← decode_rule_set j; rs ← decode_rule_sets js; ok (r ∷ rs)

decode_array : Json → Result Str Items
decode_array null = ok no_items
decode_array (array js) = ok js
decode_array j = err type_mismatch

unfoldable pub decode_doc : Json → Result Str RouteDoc
unfolding decode_object decode_array decode_rules decode_rule_sets decode_text
decode_doc j = do
  top ← decode_object j
  route ← decode_object (get (codes "route") top)
  rules ← decode_array (get (codes "rules") route)
  rules ← decode_rules rules
  final ← decode_text (get (codes "final") route)
  sets ← decode_array (get (codes "rule_set") route)
  sets ← decode_rule_sets sets
  ok (record { rules = rules; final = final; rule_set = sets })
