-- ===== src/Subscription/Blocking.antt =====
-- What the profile drops does not depend on the deployment.
use mathlib.Core.List.{Perm}
use mathlib.Core.List.Perm
use rdda.Common.{ℕ, List, [], ◌∷◌, ◌≡◌, refl, get_or, ap, map}
use rdda.Json.{Json, null}
use rdda.State.Config.{Config, rule_order, counted}
use rdda.State.Config.RuleOrder.{rule_order-Perm}
use rdda.Subscription.{block_rules, picked, ordered_block_rules}

picked-map : (base : List Json) (is : List ℕ) → picked base is ≡ map (λ i. get_or base i null) is
unfolding picked
picked-map base [] = refl
picked-map base (i ∷ is) = ap (λ r. get_or base i null ∷ r) (picked-map base is)

-- Whatever the deployment, the profile's rules that drop traffic are the same three, each once.
pub ordered_block_rules-Perm : (c : Config) → Perm (ordered_block_rules c) block_rules
unfolding ordered_block_rules counted
ordered_block_rules-Perm c =
    rw (picked-map block_rules (rule_order c 3))
      (Perm.map (λ i. get_or block_rules i null) (rule_order-Perm c 3))
