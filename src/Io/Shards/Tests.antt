-- ===== src/Io/Shards/Tests.antt =====
-- Runs of src/io/k3_st.c on a shard with one tensor of two bytes.
use multi_model_llm_engine.Base.{
  Bool, ◌-◌, ℕ, ◌+◌, ◌≡◌, ◌^◌, ◌⊎◌, refl, true, false, some, List, [], ◌∷◌, ◌++◌, take, drop,
  length, arith, All, replicate,
}
use multi_model_llm_engine.Base.Int.{
  add_i64, sub_i64, mul_i64, to_i64, ℤ, pos, ◌+ℤ◌, ◌-ℤ◌, ◌*ℤ◌, to_u64,
}
use multi_model_llm_engine.Formats.Gguf.Types.{same_text}
use multi_model_llm_engine.Storage.File.{read_loop, pread_all}
use multi_model_llm_engine.Tokenizer.Map.{Map, probe, home, next, hash_bytes, hash_from, capacity}
use multi_model_llm_engine.Io.Shards.{
  numel_from, K3Tensor, u8, elemsize, numel_of, dtype_of, until_nul,
}
use multi_model_llm_engine.Io.Shards.Scan.{
  ws, lit, str_text, str_chars, require, i64, digits_from, unsigned_at, skip_value, skip_nested,
  mode_after, depth_after, hex_digit, code_unit, escape, skip_bare, string_end,
}
use multi_model_llm_engine.Io.Shards.Settled.{scan_loops-settle}
use multi_model_llm_engine.Io.Shards.Header.{
  Fields, dtype_field, extents, shape_field, offsets_field, field, fields, tensor_of, entry_tensor,
  entries, header_length, length_fits, scan_shard,
}
use multi_model_llm_engine.Io.Shards.Open.{DoesFit, ElementsFit, elements, IsFiled, st_open-IsFiled}
use multi_model_llm_engine.Io.Shards.Index.{
  st_open, scan_all, indexed, duplicate, index_tensors, index_from, no_buckets, bucket_count,
  st_find,
}
use multi_model_llm_engine.Io.Shards.Index.Unique.{
  distinct, names_of, first_of_name, index_tensors-distinct,
}

abbrev json : List ℕ
json =
    b'{' ∷ 34 ∷ b'a' ∷ 34 ∷ b':' ∷ b'{' ∷ 34 ∷ b'd' ∷ b't' ∷ b'y' ∷ b'p' ∷ b'e' ∷ 34 ∷ b':' ∷ 34
    ∷ b'U' ∷ b'8' ∷ 34 ∷ b',' ∷ 34 ∷ b's' ∷ b'h' ∷ b'a' ∷ b'p' ∷ b'e' ∷ 34 ∷ b':' ∷ b'[' ∷ b'2'
    ∷ b']' ∷ b',' ∷ 34 ∷ b'd' ∷ b'a' ∷ b't' ∷ b'a' ∷ b'_' ∷ b'o' ∷ b'f' ∷ b'f' ∷ b's' ∷ b'e' ∷ b't'
    ∷ b's' ∷ 34 ∷ b':' ∷ b'[' ∷ b'0' ∷ b',' ∷ b'2' ∷ b']' ∷ b'}' ∷ b',' ∷ 34 ∷ b'_' ∷ b'_' ∷ b'm'
    ∷ b'e' ∷ b't' ∷ b'a' ∷ b'd' ∷ b'a' ∷ b't' ∷ b'a' ∷ b'_' ∷ b'_' ∷ 34 ∷ b':' ∷ b'{' ∷ b'}' ∷ b'}'
    ∷ []

abbrev contents : List ℕ
contents = 71 ∷ replicate 7 0 ++ json ++ (b'x' ∷ b'y' ∷ [])

abbrev whole : ℕ → ℕ → ℕ → List ℕ
whole fd off n = take n (drop off contents)

abbrev pair : K3Tensor
pair = record {
  name = b'a' ∷ [];
  shard = 5;
  dtype = u8;
  shape = pos 2 ∷ [];
  off = pos 79;
  nbytes = pos 2;
}

scanned : scan_shard whole 3 81 5 ≡ some (pair ∷ [], [])
unfolding scan_shard pread_all read_loop header_length length_fits entries entry_tensor fields field
    dtype_field shape_field extents offsets_field tensor_of elemsize numel_of dtype_of until_nul
    same_text ws lit str_text str_chars require i64 digits_from unsigned_at skip_value skip_nested
    numel_from add_i64 sub_i64 mul_i64 to_i64 mode_after depth_after ◌+ℤ◌ ◌-ℤ◌ ◌*ℤ◌ escape code_unit
    hex_digit string_end skip_bare to_u64
scanned = refl

-- `"\u0041\n"` in a name.
unescaped :
    str_text 512 (34 ∷ 92 ∷ b'u' ∷ b'0' ∷ b'0' ∷ b'4' ∷ b'1' ∷ 92 ∷ b'n' ∷ 34 ∷ [])
    ≡ some (b'A' ∷ 10 ∷ [], [])
unfolding str_text str_chars lit ws require escape code_unit hex_digit to_u64 ◌+ℤ◌ ◌-ℤ◌
unescaped = refl

-- A length near the greatest passes the test for a file of seven bytes.
length_wraps : length_fits 7 (2 ^ 64 + 0 - 1) ≡ true
unfolding length_fits
length_wraps = refl

abbrev files : List (ℕ × ℕ)
files = (3, length contents) ∷ []

abbrev first_pair : K3Tensor
first_pair = record pair { shard = 0 }

opened : st_open whole files ≡ some (first_pair ∷ [], index_tensors (first_pair ∷ []))
unfolding st_open scan_all scan_shard pread_all read_loop header_length length_fits entries
    entry_tensor fields field dtype_field shape_field extents offsets_field tensor_of elemsize
    numel_of dtype_of until_nul same_text ws lit str_text str_chars require i64 digits_from
    unsigned_at skip_value skip_nested numel_from add_i64 sub_i64 mul_i64 to_i64 mode_after
    depth_after ◌+ℤ◌ ◌-ℤ◌ ◌*ℤ◌ escape code_unit hex_digit string_end skip_bare to_u64
opened = refl

pair-DoesFit : DoesFit first_pair
unfolding ElementsFit elements elemsize ◌*ℤ◌ ◌+ℤ◌
pair-DoesFit = record {
  numel = ((omega arith, omega arith), tt);
  size = (omega arith, omega arith);
  end = (omega arith, omega arith);
}

st_open-IsFiled_example : All (IsFiled files) (first_pair ∷ [])
st_open-IsFiled_example =
    st_open-IsFiled whole files (first_pair ∷ []) (index_tensors (first_pair ∷ [])) opened
      (pair-DoesFit, tt)

-- 2^32 times 2^32 elements, which take no bytes in 64-bit arithmetic.
overflowing :
    tensor_of (pos 79) 81 0 (b'a' ∷ []) (record {
      dtype = some u8;
      shape = pos (2 ^ 32) ∷ pos (2 ^ 32) ∷ [];
      offsets = some (pos 0, pos 0);
    })
    ≡ some (record pair { shard = 0; shape = pos (2 ^ 32) ∷ pos (2 ^ 32) ∷ []; nbytes = pos 0 })
unfolding tensor_of elemsize numel_of numel_from until_nul add_i64 sub_i64 mul_i64 to_i64 ◌+ℤ◌ ◌-ℤ◌
    ◌*ℤ◌
overflowing = refl

abbrev other : K3Tensor
other = record pair { name = b'b' ∷ [] }

refused : index_tensors (pair ∷ other ∷ pair ∷ []) ≡ duplicate
unfolding index_tensors index_from no_buckets bucket_count capacity probe home next hash_bytes
    hash_from same_text
refused = refl

index_tensors-distinct_example :
    ((distinct [] (names_of (pair ∷ other ∷ [])) ≡ true)
      × ((m : Map) × ((index_tensors (pair ∷ other ∷ []) ≡ indexed m)
            × ((name : List ℕ)
                → st_find (pair ∷ other ∷ []) m name
                  ≡ first_of_name (until_nul name) (pair ∷ other ∷ [])))))
    ⊎ ((distinct [] (names_of (pair ∷ other ∷ [])) ≡ false)
        × (index_tensors (pair ∷ other ∷ []) ≡ duplicate))
index_tensors-distinct_example = index_tensors-distinct (pair ∷ other ∷ []) (omega arith)

scan_loops-settle_example :
    (str_chars 100 json ≡ str_chars 200 json)
    × ((f : Fields) → extents 100 f json ≡ extents 200 f json)
    × ((first : Bool) (f : Fields) → fields 100 first f json ≡ fields 200 first f json)
    × ((base : ℤ) (fsize shard : ℕ) (first : Bool) (ts : List K3Tensor)
        → entries base fsize shard 100 first ts json ≡ entries base fsize shard 200 first ts json)
scan_loops-settle_example = scan_loops-settle 100 200 json (omega arith) (omega arith)
