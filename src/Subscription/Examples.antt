-- ===== src/Subscription/Examples.antt =====
-- The deployment of the configuration's tests.
use mathlib.Core.List.{Perm}
use rdda.State.Config.Examples.{eu}
use rdda.Subscription.{block_rules, ordered_block_rules}
use rdda.Subscription.Blocking.{ordered_block_rules-Perm}

ordered_block_rules-Perm_example : Perm (ordered_block_rules eu) block_rules
ordered_block_rules-Perm_example = ordered_block_rules-Perm eu
