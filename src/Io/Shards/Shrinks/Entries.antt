-- ===== src/Io/Shards/Shrinks/Entries.antt =====
-- What the loops of `scan_shard` of src/io/k3_st.c leave of a header.
use multi_model_llm_engine.Base.{
  ℕ, zero, suc, ◌<◌, ◌≡◌, refl, Bool, true, false, Option, none, some, List, [], ◌∷◌, ◌++◌, ltb,
  length, arith, Bool-cases, inl, inr,
}
use multi_model_llm_engine.Base.Int.{ℤ}
use multi_model_llm_engine.Formats.Gguf.Types.{same_text}
use multi_model_llm_engine.Io.Shards.{K3Tensor, dtype_of, until_nul}
use multi_model_llm_engine.Io.Shards.Scan.{ws, lit, starts, rest_behind, str_text, i64, skip_value}
use multi_model_llm_engine.Io.Shards.Header.{
  Fields, is_known, dtype_field, extents, shape_field, offsets_field, field, dtype_key, shape_key,
  offsets_key, separator, fields, tensor_of, entry_tensor, no_fields, metadata_key,
}
use multi_model_llm_engine.Io.Shards.Shrinks.{
  Leaves, weaken-Leaves, then_scan-Leaves, if-Leaves, require-Leaves, ws-le, lit-Leaves, behind-lt,
  str_text-Leaves, i64-Leaves, skip_value-Leaves,
}

extents-Leaves : (n : ℕ) (f : Fields) (s : List ℕ) → Leaves (length s) (extents n f s)
unfolding extents
extents-Leaves zero f s = tt
extents-Leaves (suc n) f s =
    then_scan-Leaves (length s) (length s) (i64 s) _ (i64-Leaves s) (λ d s' h.
      if-Leaves (length s) (ltb (length f.shape) 4) _ none
        (elim (Bool-cases (starts b',' (ws s'))) [
          | inl e ↦ rw e (
              let f' : Fields = record f { shape = f.shape ++ (d ∷ []) } in
              weaken-Leaves _ _ (extents n f' (rest_behind (ws s')))
                (omega (arith, h, behind-lt b',' s' e)) (extents-Leaves n f' (rest_behind (ws s'))))
          | inr e ↦ rw e (
              then_scan-Leaves (length s') (length s) (lit b']' s') _ (lit-Leaves b']' s')
                (λ _ s'' k. omega (arith, h, k)))
        ])
        tt)

shape_field-Leaves : (f : Fields) (s : List ℕ) → Leaves (suc (length s)) (shape_field f s)
unfolding shape_field
shape_field-Leaves f s = then_scan-Leaves (length s) _ (lit b'[' s) _ (lit-Leaves b'[' s) (λ _ s' h.
    elim (Bool-cases (starts b']' (ws s'))) [
      | inl e ↦ rw e (omega (arith, h, behind-lt b']' s' e))
      | inr e ↦ rw e (
          weaken-Leaves _ _ (extents (length s') f (ws s')) (omega (arith, h, ws-le s'))
            (extents-Leaves (length s') f (ws s')))
    ])

dtype_field-Leaves : (f : Fields) (s : List ℕ) → Leaves (suc (length s)) (dtype_field f s)
unfolding dtype_field
dtype_field-Leaves f s =
    then_scan-Leaves (length s) _ (str_text 32 s) _ (str_text-Leaves 32 s)
      (λ t s' h. require-Leaves (suc (length s)) (is_known (dtype_of t)) s' _ (omega (arith, h)))

offsets_field-Leaves : (f : Fields) (s : List ℕ) → Leaves (suc (length s)) (offsets_field f s)
unfolding offsets_field
offsets_field-Leaves f s =
    then_scan-Leaves (length s) _ (lit b'[' s) _ (lit-Leaves b'[' s) (λ _ s₁ h₁.
      then_scan-Leaves (length s₁) _ (i64 s₁) _ (i64-Leaves s₁) (λ o₀ s₂ h₂.
        then_scan-Leaves (length s₂) _ (lit b',' s₂) _ (lit-Leaves b',' s₂) (λ _ s₃ h₃.
          then_scan-Leaves (length s₃) _ (i64 s₃) _ (i64-Leaves s₃) (λ o₁ s₄ h₄.
            then_scan-Leaves (length s₄) _ (lit b']' s₄) _ (lit-Leaves b']' s₄)
              (λ _ s₅ h₅. omega (arith, h₁, h₂, h₃, h₄, h₅))))))

pub field-Leaves :
    (key : List ℕ) (f : Fields) (s : List ℕ) → Leaves (suc (length s)) (field key f s)
unfolding field
field-Leaves key f s = elim (Bool-cases (same_text (until_nul key) dtype_key)) [
  | inl a ↦ rw a (dtype_field-Leaves f s)
  | inr a ↦ elim (Bool-cases (same_text (until_nul key) shape_key)) [
    | inl b ↦ rw (a, b) (shape_field-Leaves f s)
    | inr b ↦ elim (Bool-cases (same_text (until_nul key) offsets_key)) [
      | inl c ↦ rw (a, b, c) (offsets_field-Leaves f s)
      | inr c ↦
          rw (a, b, c)
            (then_scan-Leaves (suc (length s)) _ (skip_value s) _ (skip_value-Leaves s)
              (λ _ s' h. h))
    ]
  ]
]

pub separator-Leaves : (first : Bool) (s : List ℕ) → Leaves (suc (length s)) (separator first s)
separator-Leaves true s = omega arith
separator-Leaves false s = weaken-Leaves _ _ (lit b',' s) (omega arith) (lit-Leaves b',' s)

test-Leaves :
    {A : Type 0} (n : ℕ) (b : Bool) (m k : Option (A × List ℕ))
    → (b ≡ true → Leaves n m)
    → Leaves n k
    → Leaves n (elim b [ true ↦ m | false ↦ k ])
test-Leaves n true m k h h' = h refl
test-Leaves n false m k h h' = h'

pub fields-Leaves :
    (n : ℕ) (first : Bool) (f : Fields) (s : List ℕ) → Leaves (length s) (fields n first f s)
unfolding fields
fields-Leaves zero first f s = tt
fields-Leaves (suc n) first f s =
    test-Leaves (length s) (starts b'}' (ws s)) _ _ (behind-lt b'}' s) (
      (then_scan-Leaves (suc (length (ws s))) _ (separator first (ws s)) _
        (separator-Leaves first (ws s))
        (λ _ s₁ h₁.
          then_scan-Leaves (length s₁) _ (str_text 64 s₁) _ (str_text-Leaves 64 s₁) (λ key s₂ h₂.
            then_scan-Leaves (length s₂) _ (lit b':' s₂) _ (lit-Leaves b':' s₂) (λ _ s₃ h₃.
              then_scan-Leaves (suc (length s₃)) _ (field key f s₃) _ (field-Leaves key f s₃)
                (λ f' s₄ h₄.
                  weaken-Leaves _ _ (fields n false f' s₄) (omega (arith, ws-le s, h₁, h₂, h₃, h₄))
                    (fields-Leaves n false f' s₄)))))))

pub entry_tensor-Leaves :
    (base : ℤ) (fsize shard : ℕ) (s : List ℕ) → Leaves (length s) (entry_tensor base fsize shard s)
unfolding entry_tensor
entry_tensor-Leaves base fsize shard s =
    then_scan-Leaves (length s) _ (str_text 512 s) _ (str_text-Leaves 512 s) (λ name s₁ h₁.
      then_scan-Leaves (length s₁) _ (lit b':' s₁) _ (lit-Leaves b':' s₁) (λ _ s₂ h₂.
        if-Leaves (length s) (same_text (until_nul name) metadata_key) _ _
          (then_scan-Leaves (suc (length s₂)) _ (skip_value s₂) _ (skip_value-Leaves s₂)
            (λ _ s₃ h₃. omega (arith, h₁, h₂, h₃)))
          (then_scan-Leaves (length s₂) _ (lit b'{' s₂) _ (lit-Leaves b'{' s₂) (λ _ s₃ h₃.
            then_scan-Leaves (length s₃) _ (fields (length s₃) true no_fields s₃) _
              (fields-Leaves (length s₃) true no_fields s₃)
              (λ f s₄ h₄.
                pushed (tensor_of base fsize shard name f) s₄ (omega (arith, h₁, h₂, h₃, h₄)))))))
  where
    pushed :
        (o : Option K3Tensor) (s₄ : List ℕ)
        → length s₄ < length s
        → Leaves (length s) (elim o [ none ↦ none | some t ↦ some (t ∷ [], s₄) ])
    pushed none s₄ h = tt
    pushed (some t) s₄ h = h
