-- ===== src/Common/Words.antt =====
-- Machine integers as natural numbers below a power of two; wrap-around is written out.
use Prim.Native.Nat.{ℕ, ◌^◌, ◌%◌}

abbrev pub u64 : ℕ → ℕ
u64 n = n % 2 ^ 64
