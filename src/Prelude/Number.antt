-- ===== src/Prelude/Number.antt =====
-- A JavaScript number as the source tests it: an integer, or anything else (a fraction, NaN, ±∞).
use Prim.Native.Nat.{ℕ, suc, ◌+◌, ◌≤◌}
use mathlib.Core.Path.{◌≡◌}
use mathlib.Core.Bool.{Bool, false, ◌&&◌}
use mathlib.Core.Option.{Option, none, some}
use native.Mathlib.Omega.{arith}
use odin_agent.Prelude.Tests.{leb, ltb, if◌then◌else◌}

-- `negsuc n` is -(n + 1).
pub data ℤ : Type 0 where
  pos : ℕ → ℤ
  negsuc : ℕ → ℤ

abbrev pub pos_part : ℤ → ℕ
pos_part (pos n) = n
pos_part (negsuc n) = 0

abbrev pub neg_part : ℤ → ℕ
neg_part (pos n) = 0
neg_part (negsuc n) = suc n

abbrev pub ltb_ℤ : ℤ → ℤ → Bool
ltb_ℤ a b = ltb (pos_part a + neg_part b) (pos_part b + neg_part a)

pub data Number : Type 0 where
  int : ℤ → Number
  other : Number

-- `Number.MAX_SAFE_INTEGER`
abbrev pub max_safe : ℕ
max_safe = 9007199254740991

-- The value of a number that passes `Number.isSafeInteger(n)`.
unfoldable pub safe_int : Number → Option ℤ
safe_int (int z) = if leb (pos_part z + neg_part z) max_safe then some z else none
safe_int other = none

-- The value of a number that passes `Number.isSafeInteger(n) && n >= 0`.
unfoldable pub safe_nat : Number → Option ℕ
safe_nat (int (pos n)) = if leb n max_safe then some n else none
safe_nat _ = none

pub safe_nat-le : (x : Number) (n : ℕ) → safe_nat x ≡ some n → n ≤ max_safe
unfolding safe_nat
safe_nat-le (int (pos m)) n h = ground arith
safe_nat-le (int (negsuc m)) n h = absurd (cc)
safe_nat-le other n h = absurd (cc)

abbrev pub nat : ℕ → Number
nat n = int (pos n)

pub safe_nat-nat : (n : ℕ) → n ≤ max_safe → safe_nat (nat n) ≡ some n
unfolding safe_nat
safe_nat-nat n h = ground arith

-- `value !== n` for a natural number `n`.
unfoldable pub equals_nat : Number → ℕ → Bool
equals_nat (int (pos n)) k = leb n k && leb k n
equals_nat _ k = false
