-- ===== src/Base/Masks.antt =====
-- A mask of low bits is a remainder.
use Prim.Native.Nat.{bit_and, bit_and-bitwise, digits}
use native.Mathlib.Nat.{
  zero-mod, mod-eq_of_lt, mod-lt, div-add-mod', mul-add-mod_self_right, mul_assoc, pow-suc,
  one-le-pow, mod-one,
}
use multi_model_llm_engine.Base.{
  ℕ, zero, suc, ◌+◌, ◌-◌, ◌*◌, ◌/◌, ◌%◌, ◌^◌, ◌≤◌, ◌<◌, ◌≡◌, sym, ◌∙◌, ap, arith, min,
}

-- The remainder by 2p from that of the half by p.
half_mod : (a p : ℕ) → 0 < p → a / 2 % p * 2 + a % 2 ≡ a % (p * 2)
half_mod a p h =
    let part = div-add-mod' (a / 2) p in
    let low = mod-lt (a / 2) h in
    let q = a / 2 / p in
    let r = a / 2 % p * 2 + a % 2 in
    let whole : a ≡ q * (p * 2) + r = omega (arith, part, mul_assoc q p 2) in
    sym (
      ap (λ x. x % (p * 2)) whole
      ∙ mul-add-mod_self_right q (p * 2) r
      ∙ mod-eq_of_lt (omega (arith, low)))

masked : (n k a : ℕ) → a ≤ n → digits (λ b. zero) min n a (2 ^ k - 1) ≡ a % 2 ^ k
masked zero k zero h = sym (zero-mod (2 ^ k))
masked zero k (suc a) h = absurd (omega arith)
masked (suc n) k zero h = sym (zero-mod (2 ^ k))
masked (suc n) zero (suc a) h =
    omega (arith, masked n zero (suc a / 2) (omega arith), mod-one (suc a), mod-one (suc a / 2))
masked (suc n) (suc k) (suc a) h =
    let positive = one-le-pow k 2 in
    let twice : 2 ^ suc k ≡ 2 ^ k * 2 = omega (arith, pow-suc 2 k) in
    let half : (2 ^ suc k - 1) / 2 ≡ 2 ^ k - 1 = omega (arith, twice, positive) in
    let odd : (2 ^ suc k - 1) % 2 ≡ 1 = omega (arith, twice, positive) in
    let low : min (suc a % 2) 1 ≡ suc a % 2 = omega arith in
    rw (half, odd, low, masked n k (suc a / 2) (omega arith), twice)
      (half_mod (suc a) (2 ^ k) (omega (arith, positive)))

pub bit_and_mask : (k a : ℕ) → bit_and a (2 ^ k - 1) ≡ a % 2 ^ k
bit_and_mask k a = bit_and-bitwise a (2 ^ k - 1) ∙ masked a k a (omega arith)
