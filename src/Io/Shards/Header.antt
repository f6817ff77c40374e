-- ===== src/Io/Shards/Header.antt =====
-- The header of a shard, as `scan_shard` of src/io/k3_st.c reads it. `none` is the label `bad`, or a return of -1
-- before it; allocations succeed, and nothing is printed.
use multi_model_llm_engine.Base.{
  ℕ, zero, suc, ◌+◌, ◌*◌, ◌%◌, ◌^◌, Bool, true, false, not, ◌&&◌, Option, none, some, List, [], ◌∷◌,
  ◌++◌, ltb, leb, ◌==◌, if◌then◌else◌, length,
}
use multi_model_llm_engine.Base.Int.{ℤ, pos, add_i64, sub_i64, mul_i64, eq_ℤ, ltb_ℤ}
use multi_model_llm_engine.Formats.Gguf.Types.{same_text}
use multi_model_llm_engine.Storage.File.{pread_all}
use multi_model_llm_engine.Io.Shards.{
  K3Dtype, unknown, K3Tensor, elemsize, numel_of, dtype_of, until_nul,
}
use multi_model_llm_engine.Io.Shards.Scan.{
  Scanner, pure, then_scan, ◌>>=◌, ◌>>◌, require, ws, lit, starts, rest_behind, str_text, i64,
  skip_value,
}

-- What the fields of an entry have set so far. `have_dt` and `have_off` are that the first and the last are there.
pub record Fields : Type 0 where
  pub dtype : Option K3Dtype
  pub shape : List ℤ
  pub offsets : Option (ℤ × ℤ)

abbrev pub no_fields : Fields
no_fields = record { dtype = none; shape = []; offsets = none }

abbrev pub is_known : K3Dtype → Bool
is_known unknown = false
is_known _ = true

unfoldable pub dtype_field : Fields → Scanner Fields
dtype_field f = do
  s ← str_text 32
  require (is_known (dtype_of s))
  pure (record f { dtype = some (dtype_of s) })

-- The loop over the extents, up to the closing bracket: one byte at least in each round.
unfoldable pub extents : ℕ → Fields → Scanner Fields
extents zero f s = none
extents (suc n) f s = then_scan (i64 s) (λ d s'.
    if ltb (length f.shape) 4
    then (let f' : Fields = record f { shape = f.shape ++ (d ∷ []) } in
        elim (starts b',' (ws s')) [
          | true ↦ extents n f' (rest_behind (ws s'))
          | false ↦ then_scan (lit b']' s') (λ _. pure f')
        ])
    else none)

unfoldable pub shape_field : Fields → Scanner Fields
shape_field f s = then_scan (lit b'[' s) (λ _ s'.
    if starts b']' (ws s') then some (f, rest_behind (ws s')) else extents (length s') f (ws s'))

unfoldable pub offsets_field : Fields → Scanner Fields
offsets_field f = do
  lit b'['
  o₀ ← i64
  lit b','
  o₁ ← i64
  lit b']'
  pure (record f { offsets = some (o₀, o₁) })

abbrev pub dtype_key : List ℕ
dtype_key = b'd' ∷ b't' ∷ b'y' ∷ b'p' ∷ b'e' ∷ []

abbrev pub shape_key : List ℕ
shape_key = b's' ∷ b'h' ∷ b'a' ∷ b'p' ∷ b'e' ∷ []

abbrev pub offsets_key : List ℕ
offsets_key = b'd' ∷ b'a' ∷ b't' ∷ b'a' ∷ b'_' ∷ b'o' ∷ b'f' ∷ b'f' ∷ b's' ∷ b'e' ∷ b't' ∷ b's' ∷ []

abbrev pub metadata_key : List ℕ
metadata_key =
    b'_' ∷ b'_' ∷ b'm' ∷ b'e' ∷ b't' ∷ b'a' ∷ b'd' ∷ b'a' ∷ b't' ∷ b'a' ∷ b'_' ∷ b'_' ∷ []

unfoldable pub field : List ℕ → Fields → Scanner Fields
field key f =
    if same_text (until_nul key) dtype_key
    then dtype_field f
    else if same_text (until_nul key) shape_key
    then shape_field f
    else if same_text (until_nul key) offsets_key
    then offsets_field f
    else (do skip_value; pure f)

-- `!f1 && !lit(&sc, ',')`.
abbrev pub separator : Bool → Scanner (Unit {0})
separator true = pure tt
separator false = lit b','

-- The loop over the fields of an entry: one byte at least in each round.
unfoldable pub fields : ℕ → Bool → Fields → Scanner Fields
fields zero first f s = none
fields (suc n) first f s = elim (starts b'}' (ws s)) [
  | true ↦ some (f, rest_behind (ws s))
  | false ↦ then_scan (separator first (ws s)) (λ _ s₁. then_scan (str_text 64 s₁) (λ key s₂.
      then_scan (lit b':' s₂) (λ _ s₃. then_scan (field key f s₃) (λ f'. fields n false f'))))
]

-- The tensor of an entry, if the entry agrees with itself and with the file.
unfoldable pub tensor_of : ℤ → ℕ → ℕ → List ℕ → Fields → Option K3Tensor
tensor_of base fsize shard name f = elim f.dtype [
  | none ↦ none
  | some dt ↦ elim f.offsets [
    | none ↦ none
    | some (o₀, o₁) ↦
        if not (eq_ℤ (sub_i64 o₁ o₀) (mul_i64 (numel_of f.shape) (pos (elemsize dt))))
        then none
        else if ltb_ℤ (pos fsize) (add_i64 base o₁)
        then none
        else some (record {
          name = until_nul name;
          shard = shard;
          dtype = dt;
          shape = f.shape;
          off = add_i64 base o₀;
          nbytes = sub_i64 o₁ o₀;
        })
  ]
]

-- What an entry pushes: a tensor, or nothing for `__metadata__`.
unfoldable pub entry_tensor : ℤ → ℕ → ℕ → Scanner (List K3Tensor)
entry_tensor base fsize shard s = then_scan (str_text 512 s) (λ name s₁.
    then_scan (lit b':' s₁) (λ _ s₂.
      if same_text (until_nul name) metadata_key
      then then_scan (skip_value s₂) (λ _. pure [])
      else then_scan (lit b'{' s₂) (λ _ s₃.
        then_scan (fields (length s₃) true no_fields s₃) (λ f s₄.
          elim (tensor_of base fsize shard name f) [ none ↦ none | some t ↦ some (t ∷ [], s₄) ]))))

-- The loop over the entries, with the tensors pushed so far: one byte at least in each round.
unfoldable pub entries : ℤ → ℕ → ℕ → ℕ → Bool → List K3Tensor → Scanner (List K3Tensor)
entries base fsize shard zero first ts s = none
entries base fsize shard (suc n) first ts s = elim (starts b'}' (ws s)) [
  | true ↦ some (ts, rest_behind (ws s))
  | false ↦ then_scan (separator first (ws s)) (λ _ s'. elim (starts b'}' (ws s')) [
    | true ↦ some (ts, rest_behind (ws s'))
    | false ↦
        then_scan (entry_tensor base fsize shard (ws s'))
          (λ more s''. entries base fsize shard n false (ts ++ more) s'')
  ])
]

-- The eight bytes in front, the lowest first.
unfoldable pub header_length : List ℕ → ℕ
header_length [] = 0
header_length (b ∷ bs) = b + 256 * header_length bs

-- The test of the length: the sum is one of `uint64_t`.
unfoldable pub length_fits : ℕ → ℕ → Bool
length_fits fsize hlen = not (hlen == 0) && leb ((8 + hlen) % 2 ^ 64) fsize

module _ (pread : ℕ → ℕ → ℕ → List ℕ) where
  -- `scan_shard` of the file behind a descriptor; the tensors that it pushes, and what of
  -- the header is left.
  unfoldable pub scan_shard : ℕ → ℕ → ℕ → Option (List K3Tensor × List ℕ)
  scan_shard fd fsize shard =
      let lenbuf = pread fd 0 8 in
      let hlen = header_length lenbuf in
      let json = pread_all pread fd hlen 8 in
      if not (length lenbuf == 8)
      then none
      else if not (length_fits fsize hlen)
      then none
      else if not (length json == hlen)
      then none
      else then_scan (lit b'{' json)
          (λ _. entries (pos ((8 + hlen) % 2 ^ 64)) fsize shard (length json) true [])
