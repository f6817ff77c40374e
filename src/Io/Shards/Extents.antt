-- ===== src/Io/Shards/Extents.antt =====
-- What a shard of src/io/k3_st.c that is accepted says about its tensors.
use multi_model_llm_engine.Base.{
  ℕ, zero, suc, ◌+◌, ◌%◌, ◌^◌, ◌≤◌, ◌≡◌, refl, Bool, true, false, not, Option, none, some, List, [],
  ◌∷◌, ◌++◌, ltb, ◌==◌, if◌then◌else◌, length, length-append, arith, Bool-cases, Option-cases, inl,
  inr, All, All-append, subst,
}
use multi_model_llm_engine.Base.Int.{
  ℤ, pos, ◌+ℤ◌, ◌≤ℤ◌, eq_ℤ, ltb_ℤ, not_ltb_ℤ→le, eq_ℤ_iff, FitsI64, add_i64, sub_i64, mul_i64,
  sub_add_i64,
}
use multi_model_llm_engine.Formats.Gguf.Types.{same_text}
use multi_model_llm_engine.Storage.File.{pread_all}
use multi_model_llm_engine.Io.Shards.{K3Dtype, K3Tensor, elemsize, numel_of, dtype_of, until_nul}
use multi_model_llm_engine.Io.Shards.Scan.{
  Scanner, then_scan, require, ws, lit, starts, rest_behind, str_text, i64, skip_value,
}
use multi_model_llm_engine.Io.Shards.Header.{
  Fields, is_known, dtype_field, extents, shape_field, offsets_field, field, dtype_key, shape_key,
  offsets_key, separator, fields, tensor_of, entry_tensor, entries, scan_shard, header_length,
  length_fits, no_fields, metadata_key,
}

-- A result, if there is one, has a property.
abbrev Ensures : {A : Type 0} → (A → Type 0) → Option (A × List ℕ) → Type 0
Ensures P none = Unit {0}
Ensures P (some (a, s)) = P a

then_scan-Ensures :
    {A B : Type 0} (P : B → Type 0) (m : Option (A × List ℕ)) (f : A → Scanner B)
    → ((a : A) (s : List ℕ) → m ≡ some (a, s) → Ensures P (f a s))
    → Ensures P (then_scan m f)
then_scan-Ensures P none f h = tt
then_scan-Ensures P (some (a, s)) f h = h a s refl

abbrev DtypeKnown : Option K3Dtype → Type 0
DtypeKnown none = Unit {0}
DtypeKnown (some d) = is_known d ≡ true

-- The fields hold a type that is known, if any, and four extents at most.
record IsSensible (f : Fields) : Type 0 where
  pub known : DtypeKnown f.dtype
  pub rank : length f.shape ≤ 4

require-Ensures :
    {B : Type 0} (P : B → Type 0) (b : Bool) (s : List ℕ) (k : Unit {0} → Scanner B)
    → (b ≡ true → Ensures P (k tt s))
    → Ensures P (then_scan (require b s) k)
unfolding require
require-Ensures P true s k h = h refl
require-Ensures P false s k h = tt

dtype_field-IsSensible :
    (f : Fields) (s : List ℕ) → IsSensible f → Ensures IsSensible (dtype_field f s)
unfolding dtype_field
dtype_field-IsSensible f s v = then_scan-Ensures IsSensible (str_text 32 s) _ (λ t s' _.
    require-Ensures IsSensible (is_known (dtype_of t)) s' _
      (λ h. record { known = h; rank = v.rank }))

if-Ensures :
    {A : Type 0} (P : A → Type 0) (b : Bool) (m : Option (A × List ℕ))
    → (b ≡ true → Ensures P m)
    → Ensures P (if b then m else none)
if-Ensures P true m h = h refl
if-Ensures P false m h = tt

choice-Ensures :
    {A : Type 0} (P : A → Type 0) (b : Bool) (m k : Option (A × List ℕ))
    → Ensures P m
    → Ensures P k
    → Ensures P (if b then m else k)
choice-Ensures P true m k h h' = h
choice-Ensures P false m k h h' = h'

unless-Ensures :
    {A : Type 0} (P : A → Type 0) (b : Bool) (m : Option (A × List ℕ))
    → Ensures P m
    → Ensures P (if b then none else m)
unless-Ensures P true m h = tt
unless-Ensures P false m h = h

either-Ensures :
    {A : Type 0} (P : A → Type 0) (b : Bool) (m k : Option (A × List ℕ))
    → Ensures P m
    → Ensures P k
    → Ensures P (elim b [ true ↦ m | false ↦ k ])
either-Ensures P true m k h h' = h
either-Ensures P false m k h h' = h'

extents-IsSensible :
    (n : ℕ) (f : Fields) (s : List ℕ) → IsSensible f → Ensures IsSensible (extents n f s)
unfolding extents
extents-IsSensible zero f s v = tt
extents-IsSensible (suc n) f s v = then_scan-Ensures IsSensible (i64 s) _ (λ d s' _.
    if-Ensures IsSensible (ltb (length f.shape) 4) _ (λ h.
      let f' : Fields = record f { shape = f.shape ++ (d ∷ []) } in
      let v' : IsSensible f' = record {
        known = v.known;
        rank = ground (arith, length-append f.shape (d ∷ []), h);
      } in
      either-Ensures IsSensible (starts b',' (ws s')) _ _
        (extents-IsSensible n f' (rest_behind (ws s')) v')
        (then_scan-Ensures IsSensible (lit b']' s') _ (λ _ s'' _. v'))))

shape_field-IsSensible :
    (f : Fields) (s : List ℕ) → IsSensible f → Ensures IsSensible (shape_field f s)
unfolding shape_field
shape_field-IsSensible f s v = then_scan-Ensures IsSensible (lit b'[' s) _ (λ _ s' _.
    choice-Ensures IsSensible (starts b']' (ws s')) _ _ v
      (extents-IsSensible (length s') f (ws s') v))

offsets_field-IsSensible :
    (f : Fields) (s : List ℕ) → IsSensible f → Ensures IsSensible (offsets_field f s)
unfolding offsets_field
offsets_field-IsSensible f s v = then_scan-Ensures IsSensible (lit b'[' s) _ (λ _ s₁ _.
    then_scan-Ensures IsSensible (i64 s₁) _ (λ o₀ s₂ _.
      then_scan-Ensures IsSensible (lit b',' s₂) _ (λ _ s₃ _.
        then_scan-Ensures IsSensible (i64 s₃) _ (λ o₁ s₄ _.
          then_scan-Ensures IsSensible (lit b']' s₄) _
            (λ _ s₅ _. record { known = v.known; rank = v.rank })))))

field-IsSensible :
    (key : List ℕ) (f : Fields) (s : List ℕ) → IsSensible f → Ensures IsSensible (field key f s)
unfolding field
field-IsSensible key f s v = elim (Bool-cases (same_text (until_nul key) dtype_key)) [
  | inl a ↦ rw a (dtype_field-IsSensible f s v)
  | inr a ↦ elim (Bool-cases (same_text (until_nul key) shape_key)) [
    | inl b ↦ rw (a, b) (shape_field-IsSensible f s v)
    | inr b ↦ elim (Bool-cases (same_text (until_nul key) offsets_key)) [
      | inl c ↦ rw (a, b, c) (offsets_field-IsSensible f s v)
      | inr c ↦ rw (a, b, c) (then_scan-Ensures IsSensible (skip_value s) _ (λ _ s' _. v))
    ]
  ]
]

fields-IsSensible :
    (n : ℕ) (first : Bool) (f : Fields) (s : List ℕ)
    → IsSensible f
    → Ensures IsSensible (fields n first f s)
unfolding fields
fields-IsSensible zero first f s v = tt
fields-IsSensible (suc n) first f s v = either-Ensures IsSensible (starts b'}' (ws s)) _ _ v (
    then_scan-Ensures IsSensible (separator first (ws s)) _ (λ _ s₁ _.
      then_scan-Ensures IsSensible (str_text 64 s₁) _ (λ key s₂ _.
        then_scan-Ensures IsSensible (lit b':' s₂) _ (λ _ s₃ _.
          then_scan-Ensures IsSensible (field key f s₃) _ (λ f' s₄ e.
            fields-IsSensible n false f' s₄
              (subst (Ensures IsSensible) e (field-IsSensible key f s₃ v)))))))

-- The tensor is one of the shard, of a known type and of four extents at most, its bytes are as many as its
-- shape takes in 64-bit arithmetic, and their end, where it is an `int64_t`, is within the file.
pub record IsPlaced (fsize shard : ℕ) (t : K3Tensor) : Type 0 where
  pub here : t.shard ≡ shard
  pub known : is_known t.dtype ≡ true
  pub rank : length t.shape ≤ 4
  pub sized : t.nbytes ≡ mul_i64 (numel_of t.shape) (pos (elemsize t.dtype))
  pub ends : FitsI64 (t.off +ℤ t.nbytes) → t.off +ℤ t.nbytes ≤ℤ pos fsize

abbrev PlacedIf : ℕ → ℕ → Option K3Tensor → Type 0
PlacedIf fsize shard none = Unit {0}
PlacedIf fsize shard (some t) = IsPlaced fsize shard t

-- The end of the bytes is where the second offset says.
ends :
    (base o₀ o₁ : ℤ) (n : ℕ)
    → add_i64 base o₁ ≤ℤ pos n
    → FitsI64 (add_i64 base o₀ +ℤ sub_i64 o₁ o₀)
    → add_i64 base o₀ +ℤ sub_i64 o₁ o₀ ≤ℤ pos n
ends base o₀ o₁ n h fits = rw (sub_add_i64 base o₀ o₁ fits) h

pushed-IsPlaced :
    (fsize shard : ℕ) (o : Option K3Tensor) (s : List ℕ)
    → PlacedIf fsize shard o
    → Ensures (All (IsPlaced fsize shard)) (elim o [ none ↦ none | some t ↦ some (t ∷ [], s) ])
pushed-IsPlaced fsize shard none s h = tt
pushed-IsPlaced fsize shard (some t) s h = (h, tt)

tensor_of-IsPlaced :
    (base : ℤ) (fsize shard : ℕ) (name : List ℕ) (f : Fields)
    → IsSensible f
    → PlacedIf fsize shard (tensor_of base fsize shard name f)
unfolding tensor_of
tensor_of-IsPlaced base fsize shard name f v = elim (Option-cases f.dtype) [
  | inl a ↦ rw (tensor_of, a) tt
  | inr (dt, a) ↦ elim (Option-cases f.offsets) [
    | inl b ↦ rw (tensor_of, a, b) tt
    | inr ((o₀, o₁), b) ↦
        elim (Bool-cases (eq_ℤ (sub_i64 o₁ o₀) (mul_i64 (numel_of f.shape) (pos (elemsize dt))))) [
          | inr c ↦ rw (tensor_of, a, b, c) tt
          | inl c ↦ elim (Bool-cases (ltb_ℤ (pos fsize) (add_i64 base o₁))) [
            | inl d ↦ rw (tensor_of, a, b, c, d) tt
            | inr d ↦
                rw (tensor_of, a, b, c, d)
                  (record {
                    here = refl;
                    known = subst DtypeKnown a v.known;
                    rank = v.rank;
                    sized =
                        (eq_ℤ_iff (sub_i64 o₁ o₀)
                            (mul_i64 (numel_of f.shape) (pos (elemsize dt)))).0
                          c;
                    ends = ends base o₀ o₁ fsize (not_ltb_ℤ→le (pos fsize) (add_i64 base o₁) d);
                  })
          ]
        ]
  ]
]

entry_tensor-IsPlaced :
    (base : ℤ) (fsize shard : ℕ) (s : List ℕ)
    → Ensures (All (IsPlaced fsize shard)) (entry_tensor base fsize shard s)
unfolding entry_tensor
entry_tensor-IsPlaced base fsize shard s =
    then_scan-Ensures (All (IsPlaced fsize shard)) (str_text 512 s) _ (λ name s₁ _.
      then_scan-Ensures (All (IsPlaced fsize shard)) (lit b':' s₁) _ (λ _ s₂ _.
        choice-Ensures (All (IsPlaced fsize shard)) (same_text (until_nul name) metadata_key) _ _
          (then_scan-Ensures (All (IsPlaced fsize shard)) (skip_value s₂) _ (λ _ s₃ _. tt))
          (then_scan-Ensures (All (IsPlaced fsize shard)) (lit b'{' s₂) _ (λ _ s₃ _.
            then_scan-Ensures (All (IsPlaced fsize shard)) (fields (length s₃) true no_fields s₃) _
              (λ f s₄ e. pushed-IsPlaced fsize shard (tensor_of base fsize shard name f) s₄ (
                tensor_of-IsPlaced base fsize shard name f (
                  subst (Ensures IsSensible) e (
                    fields-IsSensible (length s₃) true no_fields s₃
                      (record { known = tt; rank = omega arith })))))))))

entries-IsPlaced :
    (base : ℤ) (fsize shard n : ℕ) (first : Bool) (ts : List K3Tensor) (s : List ℕ)
    → All (IsPlaced fsize shard) ts
    → Ensures (All (IsPlaced fsize shard)) (entries base fsize shard n first ts s)
unfolding entries
entries-IsPlaced base fsize shard zero first ts s v = tt
entries-IsPlaced base fsize shard (suc n) first ts s v =
    either-Ensures (All (IsPlaced fsize shard)) (starts b'}' (ws s)) _ _ v (
      then_scan-Ensures (All (IsPlaced fsize shard)) (separator first (ws s)) _ (λ _ s₁ _.
        either-Ensures (All (IsPlaced fsize shard)) (starts b'}' (ws s₁)) _ _ v (
          then_scan-Ensures (All (IsPlaced fsize shard)) (entry_tensor base fsize shard (ws s₁)) _
            (λ more s₂ e. entries-IsPlaced base fsize shard n false (ts ++ more) s₂ (
              All-append (IsPlaced fsize shard) ts more v (
                subst (Ensures (All (IsPlaced fsize shard))) e
                  (entry_tensor-IsPlaced base fsize shard (ws s₁))))))))

-- Every tensor that `scan_shard` pushes belongs to the shard, has a type of the format and four extents at most,
-- takes as many bytes as its shape and type say in 64-bit arithmetic, and ends within the file if its end is an
-- `int64_t`, whatever the header's bytes are.
pub scan_shard-IsPlaced :
    (pread : ℕ → ℕ → ℕ → List ℕ) (fd fsize shard : ℕ) (ts : List K3Tensor) (s : List ℕ)
    → scan_shard pread fd fsize shard ≡ some (ts, s)
    → All (IsPlaced fsize shard) ts
unfolding scan_shard
scan_shard-IsPlaced pread fd fsize shard ts s e = subst (Ensures (All (IsPlaced fsize shard))) e (
    let lenbuf = pread fd 0 8 in
    let hlen = header_length lenbuf in
    let json = pread_all pread fd hlen 8 in
    unless-Ensures _ (not (length lenbuf == 8)) _ (
      unless-Ensures _ (not (length_fits fsize hlen)) _ (
        unless-Ensures _ (not (length json == hlen)) _ (
          then_scan-Ensures (All (IsPlaced fsize shard)) (lit b'{' json) _ (λ _ s' _.
            entries-IsPlaced (pos ((8 + hlen) % 2 ^ 64)) fsize shard (length json) true [] s'
              tt)))))
