-- ===== src/Tensor/Dtype/Sizes.antt =====
-- The sizes that src/tensor/dtype.c gives.
use multi_model_llm_engine.Base.{◌≡◌, ◌<◌, refl, some, arith, ltb}
use multi_model_llm_engine.Tensor.Dtype.{
  DType, DTypeInfo, dtype_info, dtype_name, dtype_by_name, is_blocked,
}

-- A data type is found again under its name, and the invalid one under the name of an unknown type.
dtype_by_name-dtype_name : (d : DType) → dtype_by_name (dtype_name d) ≡ d
unfolding dtype_by_name dtype_name
dtype_by_name-dtype_name DType.invalid = refl
dtype_by_name-dtype_name _ = refl

-- A type of the table is blocked exactly if its blocks hold more than one element, and its blocks
-- have at least one element and one byte.
pub blocked_iff_elems :
    (d : DType) {i : DTypeInfo}
    → dtype_info d ≡ some i
    → (is_blocked d ≡ ltb 1 i.block_elems) × (0 < i.block_elems) × (0 < i.block_bytes)
unfolding dtype_info is_blocked
blocked_iff_elems DType.invalid h = ground arith
blocked_iff_elems _ h = ground arith
