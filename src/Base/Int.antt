-- ===== src/Base/Int.antt =====
-- Rust's `i64`, as integers over the native numbers, and the casts from and to `u64`.
use Prim.Native.Nat.{ℕ, ◌-◌, ◌^◌, ◌<◌}
use mathlib.Core.Bool.{Bool, true, false}
use mathlib.Core.Path.{◌≡◌}
use native.Mathlib.Decide.{ℕ_discrete}
use native.Mathlib.Omega.{arith}
use t_u_s_h_e_r.Base.Equality
use t_u_s_h_e_r.Base.Equality.{if◌then◌else◌, Eq}

-- `negsuc n` is -(n + 1).
pub data ℤ : Type 0 where
  pos : ℕ → ℤ
  negsuc : ℕ → ℤ

ℤ-discrete : Discrete ℤ
ℤ-discrete = hlevel ℕ_discrete

instance unfoldable pub int_eq : Eq ℤ
unfolding ℤ-discrete ℕ_discrete
int_eq = record { dec = ℤ-discrete }

-- `a < b`
abbrev pub ltb : ℤ → ℤ → Bool
ltb (pos a) (pos b) = Equality.ltb a b
ltb (pos a) (negsuc b) = false
ltb (negsuc a) (pos b) = true
ltb (negsuc a) (negsuc b) = Equality.ltb b a

-- `a <= b`
abbrev pub leb : ℤ → ℤ → Bool
leb (pos a) (pos b) = Equality.leb a b
leb (pos a) (negsuc b) = false
leb (negsuc a) (pos b) = true
leb (negsuc a) (negsuc b) = Equality.leb b a

-- `n as i64`, for an `n` of 64 bits: two's complement.
unfoldable pub as_i64 : ℕ → ℤ
as_i64 n = if Equality.ltb n (2 ^ 63) then pos n else negsuc (2 ^ 64 - 1 - n)

-- `z as u64`
unfoldable pub as_u64 : ℤ → ℕ
as_u64 (pos n) = n
as_u64 (negsuc n) = 2 ^ 64 - 1 - n

pub as_i64_small : (n : ℕ) → n < 2 ^ 63 → as_i64 n ≡ pos n
unfolding as_i64
as_i64_small n h = ground arith

pub as_u64-as_i64 : (n : ℕ) → n < 2 ^ 64 → as_u64 (as_i64 n) ≡ n
unfolding as_i64 as_u64
as_u64-as_i64 n h = ground arith
