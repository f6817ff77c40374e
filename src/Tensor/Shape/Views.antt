-- ===== src/Tensor/Shape/Views.antt =====
-- The row views and the byte sizes of src/tensor/tensor.c.
use multi_model_llm_engine.Base.{ℕ, ◌+◌, ◌*◌, ◌≤◌, ◌≡◌, Bool, false, ◌||◌, none, some}
use multi_model_llm_engine.Base.Int.{pos, pos_part, ltb_ℤ, ◌+ℤ◌, ◌≤ℤ◌}
use multi_model_llm_engine.Tensor.Shape.{Tensor, rows, cols}

-- A view of the rows `first` .. `first + count - 1` of `t`, whose rows are `rb` bytes long.
pub record IsRowView (t : Tensor) (first count rb : ℕ) (v : Tensor) : Type 0 where
  pub same_rows : rows v ≡ pos count
  pub same_cols : cols v ≡ cols t
  pub size : v.nbytes ≡ pos (count * rb)
  pub within : pos (first + count) ≤ℤ rows t
  pub bytes_within : first * rb + count * rb ≤ pos_part (rows t) * rb
  pub not_owned : v.flags.owned ≡ false
  pub place : elim t.address as (λ _. Type 0) [
    | some a ↦ v.address ≡ some (a +ℤ pos (first * rb))
    | none ↦ v.file_off ≡ t.file_off +ℤ pos (first * rb)
  ]

-- The tests that `eng_tensor_view_rows` refuses a request by.
abbrev refuses : Tensor → ℕ → ℕ → Bool
refuses t first count =
    ltb_ℤ (pos first) (pos 0)
    || ltb_ℤ (pos count) (pos 0)
    || ltb_ℤ (rows t) (pos first +ℤ pos count)
