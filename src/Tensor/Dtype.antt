-- ===== src/Tensor/Dtype.antt =====
-- The table of data types: src/tensor/dtype.c and dtype.h.
pub mod Sizes
use Prim.Native.String.{String}
use text.Mathlib.Text.{◌==◌ as str_eq}
use multi_model_llm_engine.Base.{
  ℕ, ◌+◌, ◌*◌, ◌/◌, ◌%◌, Bool, true, false, not, Option, none, some, List, [], ◌∷◌, ◌==◌,
  if◌then◌else◌,
}
use multi_model_llm_engine.Base.Int.{ℤ, pos, negsuc}

-- `EngDType`.
pub data DType : Type 0 where
  invalid f32 f16 bf16 f64 i8 u8 i16 i32 i64 : DType
  q4_0 q4_1 q5_0 q5_1 q8_0 q8_1 : DType
  q2_k q3_k q4_k q5_k q6_k q8_k : DType
  mxfp4 i8r : DType

-- The bits of `flags`, ENG_DTF_FLOAT to ENG_DTF_ROW_SCALE.
pub record Flags : Type 0 where
  pub float : Bool
  pub integer : Bool
  pub quantized : Bool
  pub blocked : Bool
  pub ext_scales : Bool
  pub row_scale : Bool

-- `EngDTypeInfo`.
pub record DTypeInfo : Type 0 where
  pub name : String
  pub flags : Flags
  pub block_elems : ℕ
  pub block_bytes : ℕ
  pub row_extra : ℕ

-- The flags that the rows of the table combine.
abbrev dense_float : Flags
dense_float = record {
  float = true;
  integer = false;
  quantized = false;
  blocked = false;
  ext_scales = false;
  row_scale = false;
}

abbrev dense_int : Flags
dense_int = record dense_float { float = false; integer = true }

abbrev block_quant : Flags
block_quant = record dense_float { quantized = true; blocked = true }

abbrev row : String → Flags → ℕ → ℕ → ℕ → Option DTypeInfo
row n f e b x =
    some (record { name = n; flags = f; block_elems = e; block_bytes = b; row_extra = x })

-- `TBL` and `eng_dtype_info`: `none` is NULL.
unfoldable pub dtype_info : DType → Option DTypeInfo
dtype_info DType.invalid = none
dtype_info DType.f32 = row "f32" dense_float 1 4 0
dtype_info DType.f16 = row "f16" dense_float 1 2 0
dtype_info DType.bf16 = row "bf16" dense_float 1 2 0
dtype_info DType.f64 = row "f64" dense_float 1 8 0
dtype_info DType.i8 = row "i8" dense_int 1 1 0
dtype_info DType.u8 = row "u8" dense_int 1 1 0
dtype_info DType.i16 = row "i16" dense_int 1 2 0
dtype_info DType.i32 = row "i32" dense_int 1 4 0
dtype_info DType.i64 = row "i64" dense_int 1 8 0
dtype_info DType.q4_0 = row "q4_0" block_quant 32 18 0
dtype_info DType.q4_1 = row "q4_1" block_quant 32 20 0
dtype_info DType.q5_0 = row "q5_0" block_quant 32 22 0
dtype_info DType.q5_1 = row "q5_1" block_quant 32 24 0
dtype_info DType.q8_0 = row "q8_0" block_quant 32 34 0
dtype_info DType.q8_1 = row "q8_1" block_quant 32 36 0
dtype_info DType.q2_k = row "q2_k" block_quant 256 84 0
dtype_info DType.q3_k = row "q3_k" block_quant 256 110 0
dtype_info DType.q4_k = row "q4_k" block_quant 256 144 0
dtype_info DType.q5_k = row "q5_k" block_quant 256 176 0
dtype_info DType.q6_k = row "q6_k" block_quant 256 210 0
dtype_info DType.q8_k = row "q8_k" block_quant 256 292 0
dtype_info DType.mxfp4 = row "mxfp4" (record block_quant { ext_scales = true }) 2 1 0
dtype_info DType.i8r = row "i8r" (record dense_float { quantized = true; row_scale = true }) 1 1 4

-- `eng_dtype_name`.
unfoldable pub dtype_name : DType → String
unfolding dtype_info
dtype_name d = elim (dtype_info d) [ none ↦ "?" | some i ↦ i.name ]

-- The loop of `eng_dtype_by_name` over the numbers below ENG_DT_MAX that have a row, in their order.
unfoldable pub first_named : String → List DType → DType
unfolding dtype_info
first_named s [] = DType.invalid
first_named s (d ∷ ds) =
    if elim (dtype_info d) [ none ↦ false | some i ↦ str_eq i.name s ] then d else first_named s ds

abbrev pub all_dtypes : List DType
all_dtypes =
    DType.f32 ∷ DType.f16 ∷ DType.bf16 ∷ DType.f64 ∷ DType.i8 ∷ DType.u8 ∷ DType.i16 ∷ DType.i32
    ∷ DType.i64 ∷ DType.q4_0 ∷ DType.q4_1 ∷ DType.q5_0 ∷ DType.q5_1 ∷ DType.q8_0 ∷ DType.q8_1
    ∷ DType.q2_k ∷ DType.q3_k ∷ DType.q4_k ∷ DType.q5_k ∷ DType.q6_k ∷ DType.q8_k ∷ DType.mxfp4
    ∷ DType.i8r ∷ []

-- `eng_dtype_by_name`.
unfoldable pub dtype_by_name : String → DType
unfolding first_named
dtype_by_name s = first_named s all_dtypes

-- `eng_dtype_is_quantized`, `eng_dtype_is_blocked` and `eng_dtype_has_ext_scales`.
unfoldable pub is_quantized : DType → Bool
unfolding dtype_info
is_quantized d = elim (dtype_info d) [ none ↦ false | some i ↦ i.flags.quantized ]

unfoldable pub is_blocked : DType → Bool
unfolding dtype_info
is_blocked d = elim (dtype_info d) [ none ↦ false | some i ↦ i.flags.blocked ]

unfoldable pub has_ext_scales : DType → Bool
unfolding dtype_info
has_ext_scales d = elim (dtype_info d) [ none ↦ false | some i ↦ i.flags.ext_scales ]

-- `eng_dtype_bytes`: `none` is -1.
unfoldable pub dtype_bytes : DType → ℤ → Option ℕ
unfolding dtype_info
dtype_bytes d (negsuc _) = none
dtype_bytes d (pos n) = elim (dtype_info d) [
  | none ↦ none
  | some i ↦
      if i.flags.row_scale
      then none
      else if not (n % i.block_elems == 0)
      then none
      else some (n / i.block_elems * i.block_bytes)
]

-- `eng_dtype_row_bytes`.
unfoldable pub dtype_row_bytes : DType → ℤ → Option ℕ
unfolding dtype_info
dtype_row_bytes d (negsuc _) = none
dtype_row_bytes d (pos cols) = elim (dtype_info d) [
  | none ↦ none
  | some i ↦
      if not (cols % i.block_elems == 0)
      then none
      else some (cols / i.block_elems * i.block_bytes + i.row_extra)
]

-- `eng_dtype_scale_group`.
unfoldable pub scale_group : DType → ℕ
unfolding dtype_info
scale_group d = elim (dtype_info d) [ none ↦ 0 | some i ↦ if i.flags.ext_scales then 32 else 0 ]
