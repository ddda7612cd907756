-- ===== src/Common/Int.antt =====
-- Signed integers over the native numbers, for Go's `int`, and its 64-bit increment.
use Prim.Native.Nat.{ℕ, suc, ◌+◌, ◌-◌, ◌≤◌, ◌<◌, ◌^◌}
use mathlib.Core.Path.{◌≡◌}
use mathlib.Core.Logic.{◌↔◌, ◌≢◌}
use mathlib.Core.Bool.{Bool, true, ◌&&◌}
use native.Mathlib.Omega.{arith}
use flowify_workflows_server.Common.Tests.{ltb, nat_beq, Eq, if◌then◌else◌}

-- `negsuc n` is -(n + 1).
pub data ℤ : Type 0 where
  pos : ℕ → ℤ
  negsuc : ℕ → ℤ

abbrev pub pos_part : ℤ → ℕ
pos_part (pos n) = n
pos_part (negsuc n) = 0

abbrev pub neg_part : ℤ → ℕ
neg_part (pos n) = 0
neg_part (negsuc n) = suc n

abbrev pub ◌≤ℤ◌ : ℤ → ℤ → Type 0

infix 50 ◌≤ℤ◌ ◌<ℤ◌
a ≤ℤ b = pos_part a + neg_part b ≤ pos_part b + neg_part a

abbrev pub ◌<ℤ◌ : ℤ → ℤ → Type 0
a <ℤ b = pos_part a + neg_part b < pos_part b + neg_part a

abbrev pub int_beq : ℤ → ℤ → Bool
int_beq a b = nat_beq (pos_part a) (pos_part b) && nat_beq (neg_part a) (neg_part b)

abbrev pub ltb_ℤ : ℤ → ℤ → Bool
ltb_ℤ a b = ltb (pos_part a + neg_part b) (pos_part b + neg_part a)

pub int_beq_iff : (a b : ℤ) → (int_beq a b ≡ true) ↔ (a ≡ b)
int_beq_iff a b = ground arith

instance abbrev pub int_eq : Eq ℤ
int_eq = record { beq = int_beq; beq_iff = int_beq_iff }

abbrev pub max_int : ℤ
max_int = pos (2 ^ 63 - 1)

abbrev pub min_int : ℤ
min_int = negsuc (2 ^ 63 - 1)

-- `v + 1` on a 64-bit `int`: the largest one wraps to the smallest.
unfoldable pub increment : ℤ → ℤ
increment (pos n) = if nat_beq n (2 ^ 63 - 1) then min_int else pos (n + 1)
increment (negsuc n) = if nat_beq n 0 then pos 0 else negsuc (n - 1)

pub lt-increment : (v : ℤ) → v <ℤ max_int → v <ℤ increment v
unfolding increment
lt-increment (pos n) h = ground arith
lt-increment (negsuc n) h = ground arith

pub ≤-<-trans_ℤ : (a b c : ℤ) → a ≤ℤ b → b <ℤ c → a <ℤ c
≤-<-trans_ℤ a b c p q = ground arith

pub <-irrefl_ℤ : (a b : ℤ) → a <ℤ b → a ≢ b
<-irrefl_ℤ a b p e = ground arith

pub pos-increment : (v : ℤ) → pos 0 ≤ℤ v → v <ℤ max_int → pos 0 <ℤ increment v
unfolding increment
pos-increment (pos n) h k = ground arith
pos-increment (negsuc n) h k = ground arith

pub ≤-antisym_ℤ : (a b : ℤ) → a ≤ℤ b → b ≤ℤ a → a ≡ b
≤-antisym_ℤ a b p q = ground arith
