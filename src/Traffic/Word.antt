-- ===== src/Traffic/Word.antt =====
-- Go's `int64` as its bit pattern, a number below 2^64: sums wrap, and the order is signed.
use ppanel_node.Base.{ℕ, ◌+◌, ◌%◌, ◌^◌, ◌≡◌, Bool, ltb, arith}

unfoldable pub add64 : ℕ → ℕ → ℕ
add64 a b = (a + b) % 2 ^ 64

-- `a < b` as signed numbers: the top bit is flipped, then the patterns are compared.
unfoldable pub lt64 : ℕ → ℕ → Bool
lt64 a b = ltb ((a + 2 ^ 63) % 2 ^ 64) ((b + 2 ^ 63) % 2 ^ 64)

pub add64_comm : (a b : ℕ) → add64 a b ≡ add64 b a
unfolding add64
add64_comm a b = omega arith

pub add64_assoc : (a b c : ℕ) → add64 (add64 a b) c ≡ add64 a (add64 b c)
unfolding add64
add64_assoc a b c = omega arith

-- The four terms of two sums, the middle two swapped.
pub add64_swap : (a b c d : ℕ) → add64 (add64 a b) (add64 c d) ≡ add64 (add64 a c) (add64 b d)
unfolding add64
add64_swap a b c d = omega arith

pub add64_zero : (a b : ℕ) → add64 0 (add64 a b) ≡ add64 a b
unfolding add64
add64_zero a b = omega arith
