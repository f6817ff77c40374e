-- ===== src/Io/Shards.antt =====
-- The tensors of the shards that src/io/k3_st.c indexes. Texts are bytes; a C string ends before its first NUL.
pub mod Scan
pub mod Header
pub mod Extents
pub mod Shrinks
pub mod Settled
pub mod Index
pub mod Open
pub mod Read
mod Tests
use multi_model_llm_engine.Base.{
  ℕ, ◌&&◌, Option, none, some, List, [], ◌∷◌, ◌==◌, if◌then◌else◌, length,
}
use multi_model_llm_engine.Base.Int.{ℤ, pos, mul_i64}
use multi_model_llm_engine.Formats.Gguf.Types.{same_text}

-- `K3Dtype`.
pub data K3Dtype : Type 0 where
  unknown u8 bf16 f16 f32 i8r : K3Dtype

-- `K3Tensor`; `ndim` is the length of the shape.
pub record K3Tensor : Type 0 where
  pub name : List ℕ
  pub shard : ℕ
  pub dtype : K3Dtype
  pub shape : List ℤ
  pub off : ℤ
  pub nbytes : ℤ

-- `k3_st_elemsize`.
unfoldable pub elemsize : K3Dtype → ℕ
elemsize u8 = 1
elemsize bf16 = 2
elemsize f16 = 2
elemsize f32 = 4
elemsize unknown = 0
elemsize i8r = 0

-- `k3_st_numel`: the product so far, and the extents that are left.
unfoldable pub numel_from : ℤ → List ℤ → ℤ
numel_from n [] = n
numel_from n (d ∷ ds) = numel_from (mul_i64 n d) ds

unfoldable pub numel_of : List ℤ → ℤ
numel_of shape = numel_from (pos 1) shape

-- `dtype_of`.
unfoldable pub dtype_of : List ℕ → K3Dtype
dtype_of s =
    if same_text s (b'U' ∷ b'8' ∷ [])
    then u8
    else if same_text s (b'B' ∷ b'F' ∷ b'1' ∷ b'6' ∷ [])
    then bf16
    else if same_text s (b'F' ∷ b'1' ∷ b'6' ∷ [])
    then f16
    else if same_text s (b'F' ∷ b'3' ∷ b'2' ∷ [])
    then f32
    else unknown

-- The text that a C function sees.
unfoldable pub until_nul : List ℕ → List ℕ
until_nul [] = []
until_nul (c ∷ s) = if c == 0 then [] else c ∷ until_nul s
