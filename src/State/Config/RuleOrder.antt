-- ===== src/State/Config/RuleOrder.antt =====
-- The order of the client's routing rules, and the multiplex parameters, over every seed.
use mathlib.Core.List.{Perm}
use mathlib.Core.List.Perm
use rdda.Common.{
  ℕ, zero, suc, ◌≤◌, ◌<◌, ◌/◌, ◌%◌, ◌^◌, true, inl, inr, List, [], ◌∷◌, ◌≡◌, refl, arith, ◌==◌,
  nat_eq, length, get_or, set, length-set, Bool-cases, if◌then◌else◌,
}
use mathlib.Core.Path.{subst}
use rdda.Common.Assoc.{mem}
use rdda.Common.{str_eq, str_instance}
use rdda.State.Config.{
  Config, exchange, lcg, shuffle, counted, order_of, rule_order, struct_seed, mux_streams,
  streams_of, protocol_of, mux_protocol, mux_protocols,
}

set-Perm : (xs : List ℕ) (i v : ℕ) → i < length xs → Perm (get_or xs i 0 ∷ set xs i v) (v ∷ xs)
set-Perm [] i v h = absurd (omega arith)
set-Perm (x ∷ xs) zero v h = Perm.swap v x xs
set-Perm (x ∷ xs) (suc i) v h =
    Perm.trans (Perm.swap x (get_or xs i 0) (set xs i v))
      (Perm.trans (Perm.cons x (set-Perm xs i v (omega arith))) (Perm.swap v x xs))

get_or-set :
    (xs : List ℕ) (i j v : ℕ)
    → i < length xs
    → get_or (set xs i v) j 0 ≡ (if i == j then v else get_or xs j 0)
get_or-set [] i j v h = omega arith
get_or-set (x ∷ xs) zero zero v h = refl
get_or-set (x ∷ xs) zero (suc j) v h = ground arith
get_or-set (x ∷ xs) (suc i) zero v h = ground arith
get_or-set (x ∷ xs) (suc i) (suc j) v h = ground (arith, get_or-set xs i j v (omega arith))

read_back :
    (xs : List ℕ) (i j : ℕ) → i < length xs → get_or (set xs i (get_or xs j 0)) j 0 ≡ get_or xs j 0
read_back xs i j h = elim (Bool-cases (i == j)) [
  | inl same ↦ rw (get_or-set xs i j (get_or xs j 0) h, same) refl
  | inr other ↦ rw (get_or-set xs i j (get_or xs j 0) h, other) refl
]

exchange-Perm : (xs : List ℕ) (i j : ℕ) → i < length xs → j < length xs → Perm (exchange xs i j) xs
unfolding exchange
exchange-Perm xs i j hi hj =
    let a = get_or xs i 0 in
    let b = get_or xs j 0 in
    let ys = set xs i b in
    let second : Perm (get_or ys j 0 ∷ set ys j a) (a ∷ ys) =
      set-Perm ys j a (rw (length-set xs i b) hj) in
    let second' : Perm (b ∷ set ys j a) (a ∷ ys) =
      subst (λ v. Perm (v ∷ set ys j a) (a ∷ ys)) (read_back xs i j hi) second in
    Perm.cons_inv (Perm.trans second' (set-Perm xs i b hi))

exchange-length : (xs : List ℕ) (i j : ℕ) → length (exchange xs i j) ≡ length xs
unfolding exchange
exchange-length xs i j =
    rw (length-set (set xs i (get_or xs j 0)) j (get_or xs i 0), length-set xs i (get_or xs j 0))
      refl

mod_below : (a i : ℕ) → a % suc i ≤ i
mod_below a i = omega arith

shuffle-Perm : (i s : ℕ) (order : List ℕ) → i < length order → Perm (shuffle i s order) order
unfolding shuffle
shuffle-Perm zero s order h = Perm.refl _
shuffle-Perm (suc i) s order h =
    let j = lcg s / 2 ^ 33 % suc (suc i) in
    Perm.trans
      (shuffle-Perm i (lcg s) (exchange order (suc i) j)
        (rw (exchange-length order (suc i) j) (omega arith)))
      (exchange-Perm order (suc i) j h (omega (arith, mod_below (lcg s / 2 ^ 33) (suc i))))

length-counted : (from n : ℕ) → length (counted from n) ≡ n
unfolding counted
length-counted from zero = refl
length-counted from (suc n) = omega (arith, length-counted (suc from) n)

order_of-Perm : (s n : ℕ) → Perm (order_of s n) (counted 0 n)
unfolding order_of
order_of-Perm s zero = unfold counted in Perm.refl _
order_of-Perm s (suc m) = elim (Bool-cases (s == 0)) [
  | inl e ↦ rw e (Perm.refl _)
  | inr e ↦
      rw e (shuffle-Perm m s (counted 0 (suc m)) (rw (length-counted 0 (suc m)) (omega arith)))
]

-- Whatever the tunnel's UUID, the rule order of n rules is a permutation of 0, …, n-1: no rule is lost
-- and none is rendered twice.
pub rule_order-Perm : (c : Config) (n : ℕ) → Perm (rule_order c n) (counted 0 n)
unfolding rule_order
rule_order-Perm c n = order_of-Perm (struct_seed c) n

streams_of_range : (s : ℕ) → (4 ≤ streams_of s) × (streams_of s ≤ 16)
unfolding streams_of
streams_of_range s = (ground arith, ground arith)

protocol_of_known : (s : ℕ) → mem (protocol_of s) mux_protocols ≡ true
unfolding protocol_of mem str_eq
protocol_of_known s = ground arith

-- Whatever the tunnel's UUID, the multiplex protocol is one of the three that sing-box negotiates, and
-- the number of streams is from 4 to 16.
pub mux_in_range :
    (c : Config)
    → (mem (mux_protocol c) mux_protocols ≡ true) × (4 ≤ mux_streams c) × (mux_streams c ≤ 16)
unfolding mux_protocol mux_streams
mux_in_range c =
    let (least, most) = streams_of_range (struct_seed c) in
    (protocol_of_known (struct_seed c), least, most)
