-- ===== src/Formats/Gguf/Types.antt =====
-- The types of src/formats/gguf.h, and how type numbers and names are read.
use multi_model_llm_engine.Base.{ℕ, Bool, true, false, ◌&&◌, List, [], ◌∷◌, ◌==◌, if◌then◌else◌}
use multi_model_llm_engine.Base.Int.{ℤ}
use multi_model_llm_engine.Tensor.Dtype.{DType}

-- `GgufType`.
pub data GgufType : Type 0 where
  uint8 int8 uint16 int16 uint32 int32 float32 bool string array uint64 int64 float64 : GgufType
  unknown : ℕ → GgufType

unfoldable pub type_of : ℕ → GgufType
type_of t =
    if t == 0
    then uint8
    else if t == 1
    then int8
    else if t == 2
    then uint16
    else if t == 3
    then int16
    else if t == 4
    then uint32
    else if t == 5
    then int32
    else if t == 6
    then float32
    else if t == 7
    then bool
    else if t == 8
    then string
    else if t == 9
    then array
    else if t == 10
    then uint64
    else if t == 11
    then int64
    else if t == 12
    then float64
    else unknown t

-- `scalar_size`.
unfoldable pub scalar_size : GgufType → ℕ
scalar_size uint8 = 1
scalar_size int8 = 1
scalar_size bool = 1
scalar_size uint16 = 2
scalar_size int16 = 2
scalar_size uint32 = 4
scalar_size int32 = 4
scalar_size float32 = 4
scalar_size uint64 = 8
scalar_size int64 = 8
scalar_size float64 = 8
scalar_size string = 0
scalar_size array = 0
scalar_size (unknown _) = 0

-- `gguf_dtype`.
unfoldable pub gguf_dtype : ℕ → DType
gguf_dtype t =
    if t == 0
    then DType.f32
    else if t == 1
    then DType.f16
    else if t == 2
    then DType.q4_0
    else if t == 3
    then DType.q4_1
    else if t == 6
    then DType.q5_0
    else if t == 7
    then DType.q5_1
    else if t == 8
    then DType.q8_0
    else if t == 9
    then DType.q8_1
    else if t == 10
    then DType.q2_k
    else if t == 11
    then DType.q3_k
    else if t == 12
    then DType.q4_k
    else if t == 13
    then DType.q5_k
    else if t == 14
    then DType.q6_k
    else if t == 15
    then DType.q8_k
    else if t == 24
    then DType.i8
    else if t == 25
    then DType.i16
    else if t == 26
    then DType.i32
    else if t == 27
    then DType.i64
    else if t == 28
    then DType.f64
    else if t == 30
    then DType.bf16
    else DType.invalid

-- The bits of `f`.
pub data FloatBits : Type 0 where
  no_float : FloatBits
  single double : ℕ → FloatBits

-- `GgufKV`; `arr_at` is where in the blob `arr_data` points.
pub record GgufKv : Type 0 where
  pub key : List ℕ
  pub type : GgufType
  pub i : ℤ
  pub f : FloatBits
  pub str : List ℕ
  pub arr_type : GgufType
  pub arr_len : ℤ
  pub arr_at : ℕ

-- `GgufTensor`; `n_dims` is the length of `shape`.
pub record GgufTensor : Type 0 where
  pub name : List ℕ
  pub shape : List ℤ
  pub ggml_type : ℕ
  pub dtype : DType
  pub rel_off : ℤ
  pub file_off : ℤ
  pub nbytes : ℤ

-- What `parse_header` fills in of `Gguf`.
pub record Header : Type 0 where
  pub version : ℕ
  pub kv : List GgufKv
  pub tensors : List GgufTensor
  pub alignment : ℕ
  pub data_start : ℕ
  pub data_bytes : ℤ

-- GGUF_MAX_DIMS.
abbrev pub gguf_max_dims : ℕ
gguf_max_dims = 4

-- What a C string shows of a copied text: the bytes before the first 0.
unfoldable pub c_string : List ℕ → List ℕ
c_string [] = []
c_string (b ∷ bs) = if b == 0 then [] else b ∷ c_string bs

-- `strcmp` for equality.
unfoldable pub same_text : List ℕ → List ℕ → Bool
same_text [] [] = true
same_text [] (_ ∷ _) = false
same_text (_ ∷ _) [] = false
same_text (a ∷ xs) (b ∷ ys) = a == b && same_text xs ys
