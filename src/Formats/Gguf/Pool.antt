-- ===== src/Formats/Gguf/Pool.antt =====
-- The string pool of `parse_header` in src/formats/gguf.c.
use multi_model_llm_engine.Base.{
  ℕ, zero, suc, ◌+◌, ◌≤◌, ◌≡◌, refl, ap, ◌∙◌, Bool, true, not, ◌||◌, Option, none, some, List, [],
  ◌∷◌, ltb, ◌==◌, if◌then◌else◌, length, drop, inl, inr, arith, length-drop, Bool-cases,
}
use multi_model_llm_engine.Base.Int.{ℤ, pos, ltb_ℤ}
use multi_model_llm_engine.Tensor.Dtype.{DType}
use multi_model_llm_engine.Tensor.Shape.{tensor_nbytes}
use multi_model_llm_engine.Formats.Gguf.Cursor.{
  Walk, ok, grow, malformed, Cur, Parser, pure, reject, ◌>>=◌, ◌>>◌, then_parse, require, rd,
  rd_str, signed,
}
use multi_model_llm_engine.Formats.Gguf.Types.{type_of, c_string, gguf_dtype}
use multi_model_llm_engine.Formats.Gguf.Metadata.{
  pooled, parse_kv, parse_kvs, parse_value, blank_kv,
}
use multi_model_llm_engine.Formats.Gguf.Header.{
  parse_tensor, parse_tensors, parse_counted, parse_with, pool_room, parse_header, counts_ok,
  has_magic, read_shape, dims_ok, is_invalid, size_of,
}
use multi_model_llm_engine.Formats.Gguf.Ends.{
  Ends, then-Ends, then_same, extent, After, IsInside, bind-IsInside, pure-IsInside,
  reject-IsInside, require-IsInside, rd-IsInside, TextRead, rd_str_text, parse_value-IsInside,
}

-- A pool that has room for what the blob could hold.
abbrev HasRoom : (ℕ → Bool) → Cur → Type 0
HasRoom room c = (u : ℕ) → u ≤ extent c → room u ≡ true

abbrev always : ℕ → Bool
always u = true

-- The names copied so far take no more than the bytes walked over.
abbrev Kept : {A : Type 0} → Cur → A × ℕ → Cur → Type 0
Kept c x c' = (x.1 ≤ c'.at) × (extent c' ≡ extent c)

-- A walk that stays inside, and leaves `n` bytes of the pool used.
abbrev Uses : {A : Type 0} → ℕ → Parser (A × ℕ) → Type 0
Uses n p = (c : Cur) → Ends (λ x c'. (x.1 ≡ n) × After c x c') (p c)

bind-Uses :
    {A B : Type 0} (n : ℕ) (p : Parser A) (f : A → Parser (B × ℕ))
    → IsInside p
    → ((a : A) → Uses n (f a))
    → Uses n (p >>= f)
bind-Uses n p f hp hf c =
    then-Ends (After c) (λ x c'. (x.1 ≡ n) × After c x c') (p c) f (hp c)
      (λ a c₁ h. onward c₁ h (f a c₁) (hf a c₁))
  where
    onward :
        {C : Type 0} (c₁ : Cur)
        → ((c.at ≤ c₁.at) × (extent c₁ ≡ extent c))
        → (w : Walk ((C × ℕ) × Cur)) → Ends (λ x c'. (x.1 ≡ n) × After c₁ x c') w
        → Ends (λ x c'. (x.1 ≡ n) × After c x c') w
    onward c₁ h (ok (x, c')) (e, g) = (e, (omega arith, omega arith))
    onward c₁ h grow g = tt
    onward c₁ h malformed g = tt

pure-Uses : {A : Type 0} (n : ℕ) (a : A) → Uses n (pure (a, n))
pure-Uses n a c = (refl, (omega arith, refl))

-- What follows a name: a test of the pool, then a walk that stays inside.
named-Kept :
    {A : Type 0} (room : ℕ → Bool) (used : ℕ) (c : Cur) (p : List ℕ → Parser (A × ℕ))
    → ((s : List ℕ) → Uses (pooled used s) (p s))
    → used ≤ c.at
    → Ends (Kept c) ((rd_str >>= λ s. require (room (pooled used s)) >> p s) c)
named-Kept room used c p hp h =
    then-Ends (TextRead 8 c) (Kept c) (rd_str c) _ (rd_str_text c) (λ s c₁ r.
      then-Ends (After c₁) (Kept c) (require (room (pooled used s)) c₁) _ (require-IsInside _ c₁)
        (λ u c₂ r₂. settle s c₂ (omega arith) (omega arith) (p s c₂) (hp s c₂)))
  where
    settle :
        {C : Type 0} (s : List ℕ) (c₂ : Cur)
        → pooled used s ≤ c₂.at
        → extent c₂ ≡ extent c
        → (w : Walk ((C × ℕ) × Cur)) → Ends (λ x c'. (x.1 ≡ pooled used s) × After c₂ x c') w
        → Ends (Kept c) w
    settle s c₂ h₁ h₂ (ok (x, c')) (e, g) = (omega arith, omega arith)
    settle s c₂ h₁ h₂ grow g = tt
    settle s c₂ h₁ h₂ malformed g = tt

named_same :
    {A : Type 0} (room : ℕ → Bool) (used : ℕ) (c : Cur) (p : List ℕ → Parser A)
    → HasRoom room c
    → used ≤ c.at
    → (rd_str >>= λ s. require (room (pooled used s)) >> p s) c
      ≡ (rd_str >>= λ s. require true >> p s) c
named_same room used c p roomy h =
    then_same (TextRead 8 c) (rd_str c) _ _ (rd_str_text c)
      (λ s c₁ r. ap (λ b. (require b >> p s) c₁) (roomy (pooled used s) (omega arith)))

parse_kv-Kept :
    (room : ℕ → Bool) (used : ℕ) (c : Cur) → used ≤ c.at → Ends (Kept c) (parse_kv room used c)
unfolding parse_kv
parse_kv-Kept room used c h =
    named-Kept room used c _
      (λ key. bind-Uses _ (rd 4) _ (rd-IsInside 4) (λ t.
        bind-Uses _ (parse_value (type_of t) (blank_kv (c_string key) (type_of t))) _
          (parse_value-IsInside _ _) (λ k. pure-Uses (pooled used key) k)))
      h

parse_kv_same :
    (room : ℕ → Bool) (used : ℕ) (c : Cur)
    → HasRoom room c
    → used ≤ c.at
    → parse_kv room used c ≡ parse_kv always used c
unfolding parse_kv
parse_kv_same room used c roomy h = named_same room used c _ roomy h

read_shape-IsInside : (n : ℕ) → IsInside (read_shape n)
unfolding read_shape
read_shape-IsInside zero = pure-IsInside {A = List ℤ} []
read_shape-IsInside (suc n) = bind-IsInside (rd 8) _ (rd-IsInside 8) (λ d.
    bind-IsInside (read_shape n) _ (read_shape-IsInside n) (λ ds. pure-IsInside (signed 64 d ∷ ds)))

size_of-IsInside : (d : DType) (shape : List ℤ) → IsInside (size_of d shape)
unfolding size_of
size_of-IsInside d shape = of_size (tensor_nbytes d shape)
  where
    of_size :
        (o : Option ℤ)
        → IsInside {A = ℤ}
            (elim o [ none ↦ reject | some n ↦ require (not (ltb_ℤ n (pos 0))) >>= λ u. pure n ])
    of_size none = reject-IsInside ℤ
    of_size (some n) =
        bind-IsInside (require (not (ltb_ℤ n (pos 0)))) _ (require-IsInside _)
          (λ u. pure-IsInside n)

parse_tensor-Kept :
    (room : ℕ → Bool) (used : ℕ) (c : Cur) → used ≤ c.at → Ends (Kept c) (parse_tensor room used c)
unfolding parse_tensor
parse_tensor-Kept room used c h =
    named-Kept room used c _
      (λ name. bind-Uses _ (rd 4) _ (rd-IsInside 4) (λ n.
        bind-Uses _ (require (dims_ok n)) _ (require-IsInside _) (λ u.
          bind-Uses _ (read_shape n) _ (read_shape-IsInside n) (λ shape.
            bind-Uses _ (rd 4) _ (rd-IsInside 4) (λ t. bind-Uses _ (rd 8) _ (rd-IsInside 8) (λ off.
              bind-Uses _ (require (not (is_invalid (gguf_dtype t)))) _ (require-IsInside _) (λ u.
                bind-Uses _ (size_of (gguf_dtype t) shape) _ (size_of-IsInside _ shape)
                  (λ nbytes. λ c. (refl, (omega arith, refl))))))))))
      h

parse_tensor_same :
    (room : ℕ → Bool) (used : ℕ) (c : Cur)
    → HasRoom room c
    → used ≤ c.at
    → parse_tensor room used c ≡ parse_tensor always used c
unfolding parse_tensor
parse_tensor_same room used c roomy h = named_same room used c _ roomy h

parse_kvs-Kept :
    (room : ℕ → Bool) (n used : ℕ) (c : Cur) → used ≤ c.at → Ends (Kept c) (parse_kvs room n used c)
unfolding parse_kvs
parse_kvs-Kept room zero used c h = (h, refl)
parse_kvs-Kept room (suc n) used c h =
    then-Ends (Kept c) (Kept c) (parse_kv room used c) _ (parse_kv-Kept room used c h) (λ a c₁ k.
      then-Ends (Kept c₁) (Kept c) (parse_kvs room n a.1 c₁) _ (parse_kvs-Kept room n a.1 c₁ (k.0))
        (λ b c₂ k₂. (k₂.0, omega arith)))

roomy_after :
    (room : ℕ → Bool) (c c' : Cur) → extent c' ≡ extent c → HasRoom room c → HasRoom room c'
roomy_after room c c' e roomy u h = roomy u (omega arith)

then_cong :
    {A B : Type 0} {w w' : Walk (A × Cur)} (f : A → Parser B)
    → w ≡ w'
    → then_parse w f ≡ then_parse w' f
then_cong f e = ap (λ v. then_parse v f) e

parse_kvs_same :
    (room : ℕ → Bool) (n used : ℕ) (c : Cur)
    → HasRoom room c
    → used ≤ c.at
    → parse_kvs room n used c ≡ parse_kvs always n used c
unfolding parse_kvs
parse_kvs_same room zero used c roomy h = refl
parse_kvs_same room (suc n) used c roomy h =
    then_cong _ (parse_kv_same room used c roomy h)
    ∙ then_same (Kept c) (parse_kv always used c) _ _ (parse_kv-Kept always used c h)
        (λ a c₁ k. then_cong _ (parse_kvs_same room n a.1 c₁ (roomy_after room c c₁ k.1 roomy) k.0))

parse_tensors_same :
    (room : ℕ → Bool) (n used : ℕ) (c : Cur)
    → HasRoom room c
    → used ≤ c.at
    → parse_tensors room n used c ≡ parse_tensors always n used c
unfolding parse_tensors
parse_tensors_same room zero used c roomy h = refl
parse_tensors_same room (suc n) used c roomy h =
    then_cong _ (parse_tensor_same room used c roomy h)
    ∙ then_same (Kept c) (parse_tensor always used c) _ _ (parse_tensor-Kept always used c h)
        (λ a c₁ k.
          then_cong _ (parse_tensors_same room n a.1 c₁ (roomy_after room c c₁ k.1 roomy) k.0))

-- A step before the names are read.
step_same :
    {A B : Type 0} (p : Parser A) (f g : A → Parser B) (n : ℕ)
    → IsInside p
    → ((a : A) (c : Cur) → extent c ≡ n → f a c ≡ g a c)
    → (c : Cur) → extent c ≡ n
    → (p >>= f) c ≡ (p >>= g) c
step_same p f g n hp hf c e = then_same (After c) (p c) f g (hp c) (λ a c₁ h. hf a c₁ (omega arith))

parse_counted_same :
    (room : ℕ → ℕ → Bool) (file_size : ℤ) (n : ℕ)
    → ((k u : ℕ) → u ≤ n → room k u ≡ true)
    → (c : Cur) → extent c ≡ n
    → parse_counted room file_size c ≡ parse_counted (λ k. always) file_size c
unfolding parse_counted
parse_counted_same room file_size n roomy = step_same (rd 4) _ _ n (rd-IsInside 4) (λ version.
    step_same (require (version == 2 || version == 3)) _ _ n (require-IsInside _) (λ u.
      step_same (rd 8) _ _ n (rd-IsInside 8) (λ nt. step_same (rd 8) _ _ n (rd-IsInside 8) (λ nk.
        step_same (require (counts_ok nt nk)) _ _ n (require-IsInside _) (λ u c e.
          then_cong _ (parse_kvs_same (room (nk + nt)) nk 0 c (roomy_at nk nt c e) (omega arith))
          ∙ then_same (Kept c) (parse_kvs always nk 0 c) _ _
              (parse_kvs-Kept always nk 0 c (omega arith))
              (λ a c₁ k. then_cong _ (
                parse_tensors_same (room (nk + nt)) nt a.1 c₁ (roomy_at nk nt c₁ (omega arith))
                  k.0)))))))
  where
    roomy_at : (nk nt : ℕ) (c : Cur) → extent c ≡ n → HasRoom (room (nk + nt)) c
    roomy_at nk nt c e u h = roomy (nk + nt) u (omega arith)

-- The string pool is never exhausted: `parse_header`, whose pool has the size of the blob and a byte for
-- each name, and two, returns what it would with a pool without bounds.
pub parse_header-unpooled :
    (file_size : ℤ) (blob : List ℕ)
    → parse_header file_size blob ≡ parse_with (λ n u. true) file_size blob
unfolding parse_header parse_with pool_room
parse_header-unpooled file_size blob = elim (Bool-cases (ltb (length blob) 24)) [
  | inl short ↦ rw short refl
  | inr long ↦ rw long (
      ap (λ w. if not (has_magic blob) then malformed else w)
        (parse_counted_same (pool_room (length blob)) file_size (length blob)
          (λ k u h. ground (arith, h)) (record { at = 4; rest = drop 4 blob })
          (grind (arith, length-drop 4 blob))))
]
