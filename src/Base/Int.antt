-- ===== src/Base/Int.antt =====
-- `int64_t` and `int` values as integers. A sum is exact where the code keeps it in range;
-- `add_i64` and its like wrap, and a conversion that narrows is written out (`to_i32`).
use multi_model_llm_engine.Base.{
  ℕ, suc, ◌+◌, ◌-◌, ◌*◌, ◌/◌, ◌%◌, ◌^◌, ◌≤◌, ◌<◌, ◌≡◌, ◌↔◌, Bool, true, false, arith, ltb, leb,
  ◌==◌, if◌then◌else◌,
}

-- `negsuc n` is -(n + 1).
pub data ℤ : Type 0 where
  pos : ℕ → ℤ
  negsuc : ℕ → ℤ

abbrev pub pos_part : ℤ → ℕ
pos_part (pos n) = n
pos_part (negsuc n) = 0

abbrev pub neg_part : ℤ → ℕ
neg_part (pos n) = 0
neg_part (negsuc n) = suc n

-- a - b, as an integer.
abbrev pub sub_ℕ : ℕ → ℕ → ℤ
sub_ℕ a b = if leb b a then pos (a - b) else negsuc (b - a - 1)

infixl 65 ◌+ℤ◌ ◌-ℤ◌
infixl 70 ◌*ℤ◌ ◌/ℤ◌
infix 50 ◌≤ℤ◌ ◌<ℤ◌
unfoldable pub ◌+ℤ◌ : ℤ → ℤ → ℤ
a +ℤ b = sub_ℕ (pos_part a + pos_part b) (neg_part a + neg_part b)

unfoldable pub ◌-ℤ◌ : ℤ → ℤ → ℤ
a -ℤ b = sub_ℕ (pos_part a + neg_part b) (neg_part a + pos_part b)

unfoldable pub ◌*ℤ◌ : ℤ → ℤ → ℤ
a *ℤ b =
    sub_ℕ (pos_part a * pos_part b + neg_part a * neg_part b)
      (pos_part a * neg_part b + neg_part a * pos_part b)

-- C division by a positive number, which rounds towards zero.
unfoldable pub ◌/ℤ◌ : ℤ → ℕ → ℤ
pos n /ℤ d = pos (n / d)
negsuc n /ℤ d = sub_ℕ 0 (suc n / d)

abbrev pub ◌≤ℤ◌ : ℤ → ℤ → Type 0
a ≤ℤ b = pos_part a + neg_part b ≤ pos_part b + neg_part a

abbrev pub ◌<ℤ◌ : ℤ → ℤ → Type 0
a <ℤ b = pos_part a + neg_part b < pos_part b + neg_part a

abbrev pub ltb_ℤ : ℤ → ℤ → Bool
ltb_ℤ a b = ltb (pos_part a + neg_part b) (pos_part b + neg_part a)

abbrev pub leb_ℤ : ℤ → ℤ → Bool
leb_ℤ a b = leb (pos_part a + neg_part b) (pos_part b + neg_part a)

abbrev pub eq_ℤ : ℤ → ℤ → Bool
eq_ℤ a b = (pos_part a + neg_part b) == (pos_part b + neg_part a)

-- Equality as arithmetic reads it.
abbrev pub Same : ℤ → ℤ → Type 0
Same a b = pos_part a + neg_part b ≡ pos_part b + neg_part a

pub ltb_ℤ→lt : (a b : ℤ) → ltb_ℤ a b ≡ true → a <ℤ b
ltb_ℤ→lt a b h = ground arith

pub not_ltb_ℤ→le : (a b : ℤ) → ltb_ℤ a b ≡ false → b ≤ℤ a
not_ltb_ℤ→le a b h = ground arith

pub leb_ℤ→le : (a b : ℤ) → leb_ℤ a b ≡ true → a ≤ℤ b
leb_ℤ→le a b h = ground arith

pub not_leb_ℤ→lt : (a b : ℤ) → leb_ℤ a b ≡ false → b <ℤ a
not_leb_ℤ→lt a b h = ground arith

pub eq_ℤ_iff : (a b : ℤ) → (eq_ℤ a b ≡ true) ↔ (a ≡ b)
eq_ℤ_iff a b = ground arith

pub +ℤ_parts :
    (a b : ℤ)
    → pos_part (a +ℤ b) + neg_part a + neg_part b ≡ neg_part (a +ℤ b) + pos_part a + pos_part b
unfolding ◌+ℤ◌
+ℤ_parts a b = ground arith

pub -ℤ_parts :
    (a b : ℤ)
    → pos_part (a -ℤ b) + neg_part a + pos_part b ≡ neg_part (a -ℤ b) + pos_part a + neg_part b
unfolding ◌-ℤ◌
-ℤ_parts a b = ground arith

pub eq_of_parts : (a b : ℤ) → pos_part a + neg_part b ≡ pos_part b + neg_part a → a ≡ b
eq_of_parts a b h = ground arith

pub ruleset int_laws = (arith, +ℤ_parts, -ℤ_parts, eq_of_parts)

pub pos-mul : (a b : ℕ) → pos a *ℤ pos b ≡ pos (a * b)
unfolding ◌*ℤ◌
pos-mul a b = ground arith

pub pos-add : (a b : ℕ) → pos a +ℤ pos b ≡ pos (a + b)
unfolding ◌+ℤ◌
pos-add a b = ground arith

-- `(uint64_t)x` and `(int)x`.
unfoldable pub to_u64 : ℤ → ℕ
to_u64 (pos n) = n % 2 ^ 64
to_u64 (negsuc n) = 2 ^ 64 - 1 - n % 2 ^ 64

-- The `int` with the low 32 bits of `m`.
abbrev signed32 : ℕ → ℤ
signed32 m = if ltb m (2 ^ 31) then pos m else negsuc (2 ^ 32 - 1 - m)

unfoldable pub to_i32 : ℤ → ℤ
to_i32 (pos n) = signed32 (n % 2 ^ 32)
to_i32 (negsuc n) = signed32 (2 ^ 32 - 1 - n % 2 ^ 32)

pub to_i32_small : (n : ℕ) → n < 2 ^ 31 → to_i32 (pos n) ≡ pos n
unfolding to_i32
to_i32_small n h = ground arith

pub to_u64_small : (n : ℕ) → n < 2 ^ 64 → to_u64 (pos n) ≡ n
unfolding to_u64
to_u64_small n h = ground arith

-- `int64_t` arithmetic on values that are not trusted wraps round, as two's complement does.
abbrev signed64 : ℕ → ℤ
signed64 m = if ltb m (2 ^ 63) then pos m else negsuc (2 ^ 64 - 1 - m)

unfoldable pub to_i64 : ℤ → ℤ
to_i64 (pos n) = signed64 (n % 2 ^ 64)
to_i64 (negsuc n) = signed64 (2 ^ 64 - 1 - n % 2 ^ 64)

unfoldable pub add_i64 : ℤ → ℤ → ℤ
add_i64 a b = to_i64 (a +ℤ b)

unfoldable pub sub_i64 : ℤ → ℤ → ℤ
sub_i64 a b = to_i64 (a -ℤ b)

unfoldable pub mul_i64 : ℤ → ℤ → ℤ
mul_i64 a b = to_i64 (a *ℤ b)

-- The value is one of `int64_t`.
abbrev pub FitsI64 : ℤ → Type 0
FitsI64 z = (pos_part z < 2 ^ 63) × (neg_part z ≤ 2 ^ 63)

pub to_i64_fits : (z : ℤ) → FitsI64 z → to_i64 z ≡ z
unfolding to_i64
to_i64_fits (pos n) h = ground (arith, h)
to_i64_fits (negsuc n) h = ground (arith, h)

pub to_i64-FitsI64 : (z : ℤ) → FitsI64 (to_i64 z)
unfolding to_i64
to_i64-FitsI64 (pos n) = ground arith
to_i64-FitsI64 (negsuc n) = ground arith

-- The wrapped value differs by a multiple of 2^64.
pub to_i64_parts :
    (z : ℤ)
    → (j : ℕ) × (k : ℕ) × (pos_part (to_i64 z) + neg_part z + j * 2 ^ 64
        ≡ neg_part (to_i64 z) + pos_part z + k * 2 ^ 64)
unfolding to_i64
to_i64_parts (pos n) =
    ((if ltb (n % 2 ^ 64) (2 ^ 63) then n / 2 ^ 64 else suc (n / 2 ^ 64)), 0, ground arith)
to_i64_parts (negsuc n) = (
  0,
  (if ltb (2 ^ 64 - 1 - n % 2 ^ 64) (2 ^ 63) then suc (n / 2 ^ 64) else n / 2 ^ 64),
  ground arith,
)

-- The sum of an offset and a difference of offsets, where it is one of `int64_t`, is that of the second offset.
pub sub_add_i64 :
    (base a b : ℤ)
    → FitsI64 (add_i64 base a +ℤ sub_i64 b a)
    → add_i64 base a +ℤ sub_i64 b a ≡ add_i64 base b
unfolding add_i64 sub_i64
sub_add_i64 base a b (h, k) =
    let (j₁, k₁, e₁) = to_i64_parts (base +ℤ a) in
    let (j₂, k₂, e₂) = to_i64_parts (b -ℤ a) in
    let (j₃, k₃, e₃) = to_i64_parts (base +ℤ b) in
    let (u, v) = to_i64-FitsI64 (base +ℤ b) in
    eq_of_parts _ _ (
      omega (
        arith,
        h,
        k,
        u,
        v,
        e₁,
        e₂,
        e₃,
        +ℤ_parts base a,
        -ℤ_parts b a,
        +ℤ_parts base b,
        +ℤ_parts (to_i64 (base +ℤ a)) (to_i64 (b -ℤ a)),
      ))
