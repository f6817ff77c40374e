-- ===== src/Base/Words.antt =====
-- Unsigned 64-bit counters, arrays as functions of the index, and rounding to a power of two.
use multi_model_llm_engine.Base.{ℕ, ◌+◌, ◌%◌, ◌^◌, ◌<◌, ◌≡◌, arith, ◌==◌, if◌then◌else◌}

-- `x++` and `x += n` on `uint64_t`, and `x++` on `uint32_t`.
unfoldable pub inc64 : ℕ → ℕ
inc64 x = (x + 1) % 2 ^ 64

unfoldable pub add64 : ℕ → ℕ → ℕ
add64 x n = (x + n) % 2 ^ 64

unfoldable pub inc32 : ℕ → ℕ
inc32 x = (x + 1) % 2 ^ 32

-- An array is a function of the index; a write replaces one value.
abbrev pub update {ℓ} : {A : Type ℓ} → (ℕ → A) → ℕ → A → ℕ → A
update f i v j = if j == i then v else f j

pub inc64_small : (x : ℕ) → x + 1 < 2 ^ 64 → inc64 x ≡ x + 1
unfolding inc64
inc64_small x h = omega arith
