-- ===== src/Formats/Gguf/Tests.antt =====
-- Runs of the reader of src/formats/gguf.c on a small file: one tensor of two floats, and no metadata but
-- an array of two strings.
use multi_model_llm_engine.Base.{
  All, true, arith, ℕ, ◌≡◌, ◌≢◌, refl, List, [], ◌∷◌, ◌++◌, length, take, drop, replicate, ltb,
  if◌then◌else◌, none, some,
}
use multi_model_llm_engine.Base.Int.{add_i64, mul_i64, to_i64, pos, to_i32, ◌+ℤ◌, ◌*ℤ◌, ◌/ℤ◌}
use multi_model_llm_engine.Tensor.Dtype.{DType, dtype_info, dtype_row_bytes, dtype_bytes}
use multi_model_llm_engine.Tensor.Shape.{tensor_nbytes, product_i64, any_negative, cols_of, rows_of}
use multi_model_llm_engine.Formats.Gguf.Cursor.{
  ok, Cur, rd, read_le, rd_str, require, split, take_bytes, position, signed,
}
use multi_model_llm_engine.Formats.Gguf.Types.{
  GgufKv, Header, string, array, type_of, scalar_size, gguf_dtype, c_string, same_text,
}
use multi_model_llm_engine.Formats.Gguf.Header.{
  parse_with, parse_header, has_magic, pool_room, parse_counted, counts_ok, parse_tensors,
  parse_tensor, dims_ok, read_shape, is_invalid, size_of, finish, alignment_of, is_power_of_two,
  data_start_of, place_tensors,
}
use multi_model_llm_engine.Formats.Gguf.Metadata.{
  blank_kv, parse_kvs, parse_kv, parse_value, parse_array, skip_array, skip_strings,
}
use multi_model_llm_engine.Formats.Gguf.Open.{Gguf, out_of_fuel, gguf_open}
use multi_model_llm_engine.Formats.Gguf.Access.{gguf_arr_str}
use multi_model_llm_engine.Formats.Gguf.Strings.{print_le, print_str, print_strs, gguf_arr_str-nth}
use multi_model_llm_engine.Formats.Gguf.Extents.{DoesFit, Extents, parse_header-Extents}
use multi_model_llm_engine.Formats.Gguf.Rounds.{gguf_open-terminates}
use multi_model_llm_engine.Formats.Gguf.Pool.{parse_header-unpooled}
use multi_model_llm_engine.Formats.Gguf.Prefix.{opened_header, whole_header, gguf_open-eq-whole}

-- `names`, an array of `a` and `bc`.
abbrev entry : List ℕ
entry =
    print_str (b'n' ∷ b's' ∷ [])
    ++ print_le 4 9
    ++ print_le 4 8
    ++ print_le 8 2
    ++ print_strs ((b'a' ∷ []) ∷ (b'b' ∷ b'c' ∷ []) ∷ [])

-- `w`, of the shape 2.
abbrev tensor : List ℕ
tensor = print_str (b'w' ∷ []) ++ print_le 4 1 ++ print_le 8 2 ++ print_le 4 0 ++ print_le 8 0

abbrev header_bytes : List ℕ
header_bytes =
    (b'G' ∷ b'G' ∷ b'U' ∷ b'F' ∷ [])
    ++ print_le 4 3
    ++ print_le 8 1
    ++ print_le 8 1
    ++ entry
    ++ tensor

abbrev file : List ℕ
file = header_bytes ++ replicate 40 7

header_length : length header_bytes ≡ 102
unfolding print_le print_str print_strs
header_length = refl

-- Its array and its header.
abbrev names_kv : GgufKv
names_kv = record (blank_kv (b'n' ∷ b's' ∷ []) array) {
  arr_type = string;
  arr_len = pos 2;
  arr_at = 50;
}

abbrev header : Header
header = record {
  version = 3;
  kv = names_kv ∷ [];
  tensors =
      record {
        name = b'w' ∷ [];
        shape = pos 2 ∷ [];
        ggml_type = 0;
        dtype = DType.f32;
        rel_off = pos 0;
        file_off = pos 128;
        nbytes = pos 8;
      }
      ∷ [];
  alignment = 32;
  data_start = 128;
  data_bytes = pos 8;
}

abbrev behind : Cur
behind = record { at = 102; rest = replicate 40 7 }

file-parsed : parse_header (pos 142) file ≡ ok (header, behind)
unfolding print_le print_str print_strs parse_header parse_with has_magic same_text pool_room
    parse_counted rd read_le require counts_ok signed parse_kvs parse_kv rd_str take_bytes split
    type_of parse_value parse_array position skip_array scalar_size skip_strings parse_tensors
    parse_tensor dims_ok read_shape gguf_dtype is_invalid size_of tensor_nbytes finish alignment_of
    is_power_of_two data_start_of place_tensors c_string to_i32 ◌+ℤ◌ ◌*ℤ◌ ◌/ℤ◌ dtype_info
    dtype_row_bytes dtype_bytes product_i64 add_i64 mul_i64 to_i64 any_negative cols_of rows_of
file-parsed = refl

all-DoesFit : All (DoesFit header.data_start) header.tensors
unfolding ◌+ℤ◌
all-DoesFit =
    (((omega arith, omega arith), ((omega arith, omega arith), (omega arith, omega arith))), tt)

parse_header-Extents_example : Extents (pos 142) header behind
parse_header-Extents_example =
    parse_header-Extents (pos 142) file header behind file-parsed all-DoesFit

parse_header-unpooled_example :
    parse_header (pos 142) file ≡ parse_with (λ n u. true) (pos 142) file
parse_header-unpooled_example = parse_header-unpooled (pos 142) file

gguf_open-terminates_example : gguf_open (λ n. take n file) 142 ≢ out_of_fuel
gguf_open-terminates_example = gguf_open-terminates (λ n. take n file) 142

gguf_open-eq-whole_example :
    opened_header (gguf_open (λ n. take n file) (length file))
    ≡ (if ltb (length file) 24 then none else whole_header file)
gguf_open-eq-whole_example = gguf_open-eq-whole file

abbrev container : Gguf
container = record { header = header; blob = file; file_size = 142 }

gguf_arr_str-nth_example : gguf_arr_str container names_kv (pos 1) ≡ some (b'b' ∷ b'c' ∷ [])
unfolding print_le print_str print_strs
gguf_arr_str-nth_example =
    gguf_arr_str-nth container names_kv (take 50 file) ((b'a' ∷ []) ∷ (b'b' ∷ b'c' ∷ []) ∷ [])
      (drop 69 file) 1 refl refl refl refl at_50 (omega arith, (omega arith, tt)) (omega arith)
  where
    at_50 :
        file ≡ take 50 file ++ (print_strs ((b'a' ∷ []) ∷ (b'b' ∷ b'c' ∷ []) ∷ []) ++ drop 69 file)
    at_50 = refl
