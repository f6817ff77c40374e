-- ===== src/Tensor/Shape.antt =====
-- Shapes, byte sizes and row views: src/tensor/tensor.c and tensor.h. A shape is the list of its
-- `ndim` extents, `shape[0]` the fastest first. The tensor's name is left out.
pub mod Views
mod Tests
use multi_model_llm_engine.Base.{
  ℕ, zero, suc, ◌+◌, ◌*◌, ◌/◌, ◌%◌, Bool, true, false, not, ◌&&◌, ◌||◌, Option, none, some, List,
  [], ◌∷◌, ◌==◌, ltb, leb, if◌then◌else◌, length, is_some,
}
use multi_model_llm_engine.Base.Int.{
  ℤ, pos, negsuc, pos_part, ltb_ℤ, eq_ℤ, ◌*ℤ◌, ◌+ℤ◌, to_i64, mul_i64,
}
use multi_model_llm_engine.Tensor.Dtype.{DType, DTypeInfo, dtype_info, dtype_bytes, dtype_row_bytes}

-- ENG_MAX_DIMS.
abbrev pub max_dims : ℕ
max_dims = 4

-- The tensor flags that the functions here set and test.
pub record TensorFlags : Type 0 where
  pub owned : Bool
  pub resident : Bool
  pub mapped : Bool
  pub cached : Bool
  pub view : Bool

-- `EngTensor`. `data` is an offset into its allocation or `none` for NULL; `store` is a handle.
pub record Tensor : Type 0 where
  pub dtype : DType
  pub shape : List ℤ
  pub stride : ℕ → ℤ
  pub nbytes : ℤ
  pub store : Option ℕ
  pub file_off : ℤ
  pub address : Option ℤ
  pub flags : TensorFlags
  pub scales : Option ℕ

abbrev no_flags : TensorFlags
no_flags = record { owned = false; resident = false; mapped = false; cached = false; view = false }

-- `eng_tensor_zero`.
abbrev pub zero_tensor : Tensor
zero_tensor = record {
  dtype = DType.invalid;
  shape = [];
  stride = λ _. pos 0;
  nbytes = pos 0;
  store = none;
  file_off = pos 0;
  address = none;
  flags = no_flags;
  scales = none;
}

-- `eng_tensor_numel`: 0 if an extent is negative.
unfoldable pub product : List ℤ → ℤ
product [] = pos 1
product (d ∷ ds) = d *ℤ product ds

unfoldable pub any_negative : List ℤ → Bool
any_negative [] = false
any_negative (d ∷ ds) = ltb_ℤ d (pos 0) || any_negative ds

unfoldable pub numel : Tensor → ℤ
numel t = if any_negative t.shape then pos 0 else product t.shape

-- The first extent, and the product of the others: 1 and 1 at rank 0.
unfoldable pub cols_of : List ℤ → ℤ
cols_of [] = pos 1
cols_of (d ∷ _) = d

unfoldable pub rows_of : List ℤ → ℤ
rows_of [] = pos 1
rows_of (_ ∷ ds) = product ds

-- `eng_tensor_cols` and `eng_tensor_rows`.
unfoldable pub cols : Tensor → ℤ
cols t = cols_of t.shape

unfoldable pub rows : Tensor → ℤ
rows t = rows_of t.shape

-- The product so far, and the extents that are left, of a shape that a file gives.
unfoldable pub product_i64 : ℤ → List ℤ → ℤ
product_i64 n [] = n
product_i64 n (d ∷ ds) = product_i64 (mul_i64 n d) ds

abbrev rest_of : List ℤ → List ℤ
rest_of [] = []
rest_of (_ ∷ ds) = ds

-- A size in 64-bit arithmetic; `none` for a negative one.
abbrev size_i64 : ℕ → Option ℤ
size_i64 n = let b = to_i64 (pos n) in if ltb_ℤ b (pos 0) then none else some b

-- `eng_tensor_nbytes`: `none` is -1.
unfoldable pub tensor_nbytes : DType → List ℤ → Option ℤ
tensor_nbytes d shape = elim (dtype_info d) [
  | none ↦ none
  | some i ↦
      if ltb max_dims (length shape)
      then none
      else if any_negative shape
      then none
      else if i.flags.row_scale
      then elim (dtype_row_bytes d (cols_of shape)) [
        | none ↦ none
        | some rb ↦ elim (size_i64 rb) [
          | none ↦ none
          | some b ↦ some (mul_i64 (product_i64 (pos 1) (rest_of shape)) b)
        ]
      ]
      else if ltb 1 i.block_elems && not (pos_part (cols_of shape) % i.block_elems == 0)
      then none
      else elim (dtype_bytes d (product_i64 (pos 1) shape)) [
        | none ↦ none
        | some n ↦ some (to_i64 (pos n))
      ]
]

-- `eng_tensor_init_file` and `eng_tensor_init_mem`: the result is the tensor afterwards and whether
-- the call returned 0.
unfoldable pub init_file : DType → List ℤ → Option ℕ → ℤ → Bool × Tensor
init_file d shape store off = elim (tensor_nbytes d shape) [
  | none ↦ (false, zero_tensor)
  | some nb ↦ if ltb_ℤ nb (pos 0) || ltb_ℤ off (pos 0) then (false, zero_tensor) else (
    true,
    record zero_tensor { dtype = d; shape = shape; nbytes = nb; store = store; file_off = off },
  )
]

unfoldable pub init_mem : DType → List ℤ → Option ℤ → Bool → Bool × Tensor
init_mem d shape at_address own = elim (tensor_nbytes d shape) [
  | none ↦ (false, zero_tensor)
  | some nb ↦ if ltb_ℤ nb (pos 0) then (false, zero_tensor) else (
    true,
    record zero_tensor {
      dtype = d;
      shape = shape;
      nbytes = nb;
      address = at_address;
      flags = record no_flags { resident = true; owned = own };
    },
  )
]

-- `eng_tensor_free`: what is passed to `free`, and the tensor afterwards.
unfoldable pub free_tensor : Tensor → Option ℤ × Tensor
free_tensor t = (if t.flags.owned then t.address else none, zero_tensor)

-- `eng_tensor_is_resident`.
unfoldable pub is_resident : Tensor → Bool
is_resident t = is_some t.address && t.flags.resident

-- `eng_tensor_is_dense`: no axis has a stride.
unfoldable pub all_zero : ℕ → (ℕ → ℤ) → Bool
all_zero zero stride = true
all_zero (suc n) stride = eq_ℤ (stride n) (pos 0) && all_zero n stride

unfoldable pub is_dense : Tensor → Bool
unfolding all_zero
is_dense t = not (length t.shape == 0) && all_zero (length t.shape) t.stride

-- `eng_tensor_view_rows`: `none` is -1, where `*out` is not written.
unfoldable pub view_rows : Tensor → ℤ → ℤ → Option Tensor
view_rows src first count =
    if not (is_dense src)
    then none
    else if ltb_ℤ first (pos 0) || ltb_ℤ count (pos 0) || ltb_ℤ (rows src) (first +ℤ count)
    then none
    else elim (dtype_row_bytes src.dtype (cols src)) [
      | none ↦ none
      | some rb ↦
          let byte_off = first *ℤ pos rb in
          let out : Tensor = record zero_tensor {
            dtype = src.dtype;
            shape = cols src ∷ count ∷ [];
            nbytes = count *ℤ pos rb;
            scales = src.scales;
          } in
          elim src.address [
            | some a ↦ some (record out {
              address = some (a +ℤ byte_off);
              flags = record no_flags {
                resident = true;
                view = true;
                mapped = src.flags.mapped;
                cached = src.flags.cached;
              };
            })
            | none ↦ some (record out {
              store = src.store;
              file_off = src.file_off +ℤ byte_off;
              flags = record no_flags { view = true };
            })
          ]
    ]
