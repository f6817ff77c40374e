-- ===== src/Formats/Gguf/Header.antt =====
-- The tensor table and the whole of `parse_header` in src/formats/gguf.c. Allocations succeed.
use Prim.Native.Nat.{bit_and}
use multi_model_llm_engine.Base.{
  ℕ, zero, suc, ◌+◌, ◌-◌, ◌%◌, ◌^◌, Bool, true, false, not, ◌&&◌, ◌||◌, Option, none, some, List,
  [], ◌∷◌, ltb, leb, ◌==◌, if◌then◌else◌, length, drop, take,
}
use multi_model_llm_engine.Base.Int.{ℤ, pos, pos_part, ltb_ℤ, leb_ℤ, to_i32, add_i64}
use multi_model_llm_engine.Tensor.Dtype.{DType}
use multi_model_llm_engine.Tensor.Shape.{tensor_nbytes}
use multi_model_llm_engine.Formats.Gguf.Cursor.{
  Walk, ok, grow, malformed, Cur, Parser, pure, reject, ◌>>=◌, ◌>>◌, require, rd, rd_str, position,
  signed,
}
use multi_model_llm_engine.Formats.Gguf.Types.{
  gguf_dtype, GgufKv, GgufTensor, Header, gguf_max_dims, c_string, same_text,
}
use multi_model_llm_engine.Formats.Gguf.Metadata.{pooled, parse_kvs}

unfoldable pub read_shape : ℕ → Parser (List ℤ)
read_shape zero = pure []
read_shape (suc n) = do d ← rd 8; ds ← read_shape n; pure (signed 64 d ∷ ds)

-- `t->n_dims < 1 || t->n_dims > GGUF_MAX_DIMS`, of the `int`.
unfoldable pub dims_ok : ℕ → Bool
dims_ok n = leb_ℤ (pos 1) (to_i32 (pos n)) && leb_ℤ (to_i32 (pos n)) (pos gguf_max_dims)

unfoldable pub is_invalid : DType → Bool
is_invalid DType.invalid = true
is_invalid _ = false

-- `t->nbytes`, where it is not negative.
unfoldable pub size_of : DType → List ℤ → Parser ℤ
size_of d shape = elim (tensor_nbytes d shape) [
  | none ↦ reject
  | some n ↦ (do require (not (ltb_ℤ n (pos 0))); pure n)
]

unfoldable pub parse_tensor : (ℕ → Bool) → ℕ → Parser (GgufTensor × ℕ)
parse_tensor room used = do
  name ← rd_str
  require (room (pooled used name))
  n ← rd 4
  require (dims_ok n)
  shape ← read_shape n
  t ← rd 4
  off ← rd 8
  require (not (is_invalid (gguf_dtype t)))
  nbytes ← size_of (gguf_dtype t) shape
  pure (
    record {
      name = c_string name;
      shape = shape;
      ggml_type = t;
      dtype = gguf_dtype t;
      rel_off = signed 64 off;
      file_off = pos 0;
      nbytes = nbytes;
    },
    pooled used name,
  )

unfoldable pub parse_tensors : (ℕ → Bool) → ℕ → ℕ → Parser (List GgufTensor × ℕ)
parse_tensors room zero used = pure ([], used)
parse_tensors room (suc n) used = do
  (t, used₁) ← parse_tensor room used
  (ts, used₂) ← parse_tensors room n used₁
  pure (t ∷ ts, used₂)

-- `general.alignment`.
abbrev pub alignment_key : List ℕ
alignment_key =
    b'g' ∷ b'e' ∷ b'n' ∷ b'e' ∷ b'r' ∷ b'a' ∷ b'l' ∷ b'.' ∷ b'a' ∷ b'l' ∷ b'i' ∷ b'g' ∷ b'n' ∷ b'm'
    ∷ b'e' ∷ b'n' ∷ b't' ∷ []

unfoldable pub alignment_of : List GgufKv → ℕ
alignment_of [] = 32
alignment_of (k ∷ ks) =
    if same_text k.key alignment_key
    then (if ltb_ℤ (pos 0) k.i then pos_part k.i else 32)
    else alignment_of ks

-- `!(g->alignment & (g->alignment - 1))`.
unfoldable pub is_power_of_two : ℕ → Bool
is_power_of_two a = bit_and a (a - 1) == 0

-- The end of the header rounded up to a power of two, as x - x % a.
unfoldable pub data_start_of : ℕ → ℕ → ℕ
data_start_of hdr_end a = let x = hdr_end + a - 1 in x - x % a

-- The loop that gives each tensor its place in the file, with `data_bytes` so far.
unfoldable pub place_tensors : ℕ → ℤ → List GgufTensor → ℤ → Option (List GgufTensor × ℤ)
place_tensors data_start file_size [] data_bytes = some ([], data_bytes)
place_tensors data_start file_size (t ∷ ts) data_bytes =
    let off = add_i64 (pos data_start) t.rel_off in
    let size = add_i64 t.rel_off t.nbytes in
    let rest =
      place_tensors data_start file_size ts (if ltb_ℤ data_bytes size then size else data_bytes) in
    if ltb_ℤ file_size (add_i64 off t.nbytes) then none else elim rest [
      | none ↦ none
      | some (placed, bytes) ↦ some (record t { file_off = off } ∷ placed, bytes)
    ]

-- The alignment, and the tensors in their places.
unfoldable pub finish : ℤ → ℕ → List GgufKv → List GgufTensor → ℕ → Parser Header
finish file_size version kvs ts hdr_end c =
    let a = alignment_of kvs in
    let start = data_start_of hdr_end a in
    if not (is_power_of_two a) then malformed else elim (place_tensors start file_size ts (pos 0)) [
      | none ↦ malformed
      | some (placed, bytes) ↦ ok (
        record {
          version = version;
          kv = kvs;
          tensors = placed;
          alignment = a;
          data_start = start;
          data_bytes = bytes;
        },
        c,
      )
    ]

-- `n_tensors < 0 || n_tensors > 1 << 22 || n_kv < 0 || n_kv > 1 << 20`, of the `int64_t`.
unfoldable pub counts_ok : ℕ → ℕ → Bool
counts_ok nt nk =
    leb_ℤ (pos 0) (signed 64 nt)
    && leb_ℤ (signed 64 nt) (pos (2 ^ 22))
    && leb_ℤ (pos 0) (signed 64 nk)
    && leb_ℤ (signed 64 nk) (pos (2 ^ 20))

-- `room n u` says whether a pool made for `n` names has room for `u` bytes.
unfoldable pub parse_counted : (ℕ → ℕ → Bool) → ℤ → Parser Header
parse_counted room file_size = do
  version ← rd 4
  require (version == 2 || version == 3)
  nt ← rd 8
  nk ← rd 8
  require (counts_ok nt nk)
  (kvs, used₁) ← parse_kvs (room (nk + nt)) nk 0
  (ts, used₂) ← parse_tensors (room (nk + nt)) nt used₁
  hdr_end ← position
  finish file_size version kvs ts hdr_end

-- `memcmp(c.p, "GGUF", 4)`, of at least four bytes.
unfoldable pub has_magic : List ℕ → Bool
has_magic blob = same_text (take 4 blob) (b'G' ∷ b'G' ∷ b'U' ∷ b'F' ∷ [])

unfoldable pub parse_with : (ℕ → ℕ → Bool) → ℤ → List ℕ → Walk (Header × Cur)
parse_with room file_size blob =
    if ltb (length blob) 24
    then grow
    else if not (has_magic blob)
    then malformed
    else parse_counted room file_size (record { at = 4; rest = drop 4 blob })

-- `pool_init` and `pool_add` for a blob: one byte for each of the blob's, one for each name, and two.
unfoldable pub pool_room : ℕ → ℕ → ℕ → Bool
pool_room blob_size names used = leb used (blob_size + names + 2)

-- `parse_header`.
unfoldable pub parse_header : ℤ → List ℕ → Walk (Header × Cur)
parse_header file_size blob = parse_with (pool_room (length blob)) file_size blob
