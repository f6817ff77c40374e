-- ===== src/Io/Shards/Settled.antt =====
-- The loops of `scan_shard` of src/io/k3_st.c end before their rounds run out.
use multi_model_llm_engine.Base.{
  ℕ, zero, suc, ◌≤◌, ◌<◌, ◌≡◌, refl, ap, Bool, true, false, Option, none, some, List, [], ◌∷◌, ◌++◌,
  ltb, ◌==◌, if◌then◌else◌, length, arith, Bool-cases, inl, inr,
}
use multi_model_llm_engine.Base.Int.{ℤ}
use multi_model_llm_engine.Io.Shards.{K3Tensor}
use multi_model_llm_engine.Io.Shards.Scan.{
  Scanner, then_scan, ws, lit, starts, rest_behind, escape, str_chars, cons_to, str_text, i64,
}
use multi_model_llm_engine.Io.Shards.Header.{
  Fields, extents, field, separator, fields, entry_tensor, entries,
}
use multi_model_llm_engine.Io.Shards.Shrinks.{
  Leaves, ws-le, lit-Leaves, behind-lt, escape-Leaves, str_text-Leaves, i64-Leaves,
}
use multi_model_llm_engine.Io.Shards.Shrinks.Entries.{
  entry_tensor-Leaves, field-Leaves, separator-Leaves,
}

-- Whatever the rounds, a continuation that agrees with another gives the same.
then_scan-agree :
    {A B : Type 0} (n : ℕ) (m : Option (A × List ℕ)) (f g : A → Scanner B)
    → Leaves n m
    → ((a : A) (s : List ℕ) → length s < n → f a s ≡ g a s)
    → then_scan m f ≡ then_scan m g
then_scan-agree n none f g l h = refl
then_scan-agree n (some (a, s)) f g l h = h a s l

test-agree :
    {A : Type 0} (b : Bool) (x y y' : A)
    → (b ≡ false → y ≡ y')
    → elim b [ true ↦ x | false ↦ y ] ≡ elim b [ true ↦ x | false ↦ y' ]
test-agree true x y y' h = refl
test-agree false x y y' h = h refl

taken-agree :
    {A : Type 0} (b : Bool) (x x' y : A)
    → (b ≡ true → x ≡ x')
    → elim b [ true ↦ x | false ↦ y ] ≡ elim b [ true ↦ x' | false ↦ y ]
taken-agree true x x' y h = h refl
taken-agree false x x' y h = refl

str_chars-agree :
    (n m : ℕ) (s : List ℕ) → length s ≤ n → length s ≤ m → str_chars n s ≡ str_chars m s
unfolding str_chars
str_chars-agree zero zero s h k = refl
str_chars-agree zero (suc m) [] h k = refl
str_chars-agree (suc n) zero [] h k = refl
str_chars-agree (suc n) (suc m) [] h k = refl
str_chars-agree zero (suc m) (c ∷ s) h k = absurd (omega (arith, h))
str_chars-agree (suc n) zero (c ∷ s) h k = absurd (omega (arith, k))
str_chars-agree (suc n) (suc m) (c ∷ s) h k = test-agree (c == 34) _ _ _ (λ _.
    elim (Bool-cases (c == 92)) [
      | inl a ↦ rw a (
          escaped_agree (escape s) (escape-Leaves s)
            (λ s' l. str_chars-agree n m s' (omega (arith, l, h)) (omega (arith, l, k))))
      | inr a ↦ rw a (ap (cons_to c) (str_chars-agree n m s (omega (arith, h)) (omega (arith, k))))
    ])
  where
    escaped_agree :
        (o : Option (ℕ × List ℕ))
        → Leaves (suc (length s)) o
        → ((s' : List ℕ) → length s' < suc (length s) → str_chars n s' ≡ str_chars m s')
        → elim o [ none ↦ none | some (x, s') ↦ cons_to x (str_chars n s') ]
          ≡ elim o [ none ↦ none | some (x, s') ↦ cons_to x (str_chars m s') ]
    escaped_agree none l f = refl
    escaped_agree (some (x, s')) l f = ap (cons_to x) (f s' l)

extents-agree :
    (n m : ℕ) (f : Fields) (s : List ℕ)
    → length s ≤ n
    → length s ≤ m
    → extents n f s ≡ extents m f s
unfolding extents i64 ws
extents-agree zero zero f s h k = refl
extents-agree zero (suc m) f [] h k = refl
extents-agree (suc n) zero f [] h k = refl
extents-agree zero (suc m) f (c ∷ s) h k = absurd (omega (arith, h))
extents-agree (suc n) zero f (c ∷ s) h k = absurd (omega (arith, k))
extents-agree (suc n) (suc m) f s h k =
    then_scan-agree (length s) (i64 s) _ _ (i64-Leaves s) (λ d s' l.
      ap (λ o. if ltb (length f.shape) 4 then o else none)
        (taken-agree (starts b',' (ws s')) _ _ _ (λ e.
          extents-agree n m _ (rest_behind (ws s')) (omega (arith, behind-lt b',' s' e, l, h))
            (omega (arith, behind-lt b',' s' e, l, k)))))

fields-agree :
    (n m : ℕ) (first : Bool) (f : Fields) (s : List ℕ)
    → length s ≤ n
    → length s ≤ m
    → fields n first f s ≡ fields m first f s
unfolding fields ws lit str_text
fields-agree zero zero first f s h k = refl
fields-agree zero (suc m) true f [] h k = refl
fields-agree zero (suc m) false f [] h k = refl
fields-agree (suc n) zero true f [] h k = refl
fields-agree (suc n) zero false f [] h k = refl
fields-agree zero (suc m) first f (c ∷ s) h k = absurd (omega (arith, h))
fields-agree (suc n) zero first f (c ∷ s) h k = absurd (omega (arith, k))
fields-agree (suc n) (suc m) first f s h k = test-agree (starts b'}' (ws s)) _ _ _ (λ _.
    then_scan-agree (suc (length (ws s))) (separator first (ws s)) _ _
      (separator-Leaves first (ws s))
      (λ _ s₁ h₁.
        then_scan-agree (length s₁) (str_text 64 s₁) _ _ (str_text-Leaves 64 s₁) (λ key s₂ h₂.
          then_scan-agree (length s₂) (lit b':' s₂) _ _ (lit-Leaves b':' s₂) (λ _ s₃ h₃.
            then_scan-agree (suc (length s₃)) (field key f s₃) _ _ (field-Leaves key f s₃)
              (λ f' s₄ h₄.
                fields-agree n m false f' s₄ (omega (arith, ws-le s, h₁, h₂, h₃, h₄, h))
                  (omega (arith, ws-le s, h₁, h₂, h₃, h₄, k)))))))

entries-agree :
    (base : ℤ) (fsize shard n m : ℕ) (first : Bool) (ts : List K3Tensor) (s : List ℕ)
    → length s ≤ n
    → length s ≤ m
    → entries base fsize shard n first ts s ≡ entries base fsize shard m first ts s
unfolding entries entry_tensor ws lit str_text
entries-agree base fsize shard zero zero first ts s h k = refl
entries-agree base fsize shard zero (suc m) true ts [] h k = refl
entries-agree base fsize shard zero (suc m) false ts [] h k = refl
entries-agree base fsize shard (suc n) zero true ts [] h k = refl
entries-agree base fsize shard (suc n) zero false ts [] h k = refl
entries-agree base fsize shard zero (suc m) first ts (c ∷ s) h k = absurd (omega (arith, h))
entries-agree base fsize shard (suc n) zero first ts (c ∷ s) h k = absurd (omega (arith, k))
entries-agree base fsize shard (suc n) (suc m) first ts s h k =
    test-agree (starts b'}' (ws s)) _ _ _ (λ _.
      then_scan-agree (suc (length (ws s))) (separator first (ws s)) _ _
        (separator-Leaves first (ws s))
        (λ _ s₁ h₁. test-agree (starts b'}' (ws s₁)) _ _ _ (λ _.
          then_scan-agree (length (ws s₁)) (entry_tensor base fsize shard (ws s₁)) _ _
            (entry_tensor-Leaves base fsize shard (ws s₁))
            (λ more s₂ h₂.
              entries-agree base fsize shard n m false (ts ++ more) s₂
                (omega (arith, ws-le s, ws-le s₁, h₁, h₂, h))
                (omega (arith, ws-le s, ws-le s₁, h₁, h₂, k))))))

-- As many rounds as bytes are left are enough for the loops over a string, a shape, the fields of an entry and the
-- entries of a header: more rounds give the same, be it a result or a refusal.
pub scan_loops-settle :
    (n m : ℕ) (s : List ℕ)
    → length s ≤ n
    → length s ≤ m
    → (str_chars n s ≡ str_chars m s)
      × ((f : Fields) → extents n f s ≡ extents m f s)
      × ((first : Bool) (f : Fields) → fields n first f s ≡ fields m first f s)
      × ((base : ℤ) (fsize shard : ℕ) (first : Bool) (ts : List K3Tensor)
          → entries base fsize shard n first ts s ≡ entries base fsize shard m first ts s)
scan_loops-settle n m s h k = (
  str_chars-agree n m s h k,
  λ f. extents-agree n m f s h k,
  λ first f. fields-agree n m first f s h k,
  λ base fsize shard first ts. entries-agree base fsize shard n m first ts s h k,
)
