-- ===== src/Tokenizer/Encode/Filled.antt =====
-- The buffer and the symbols that a fragment is copied to in `eng_bpe_encode` of src/tokenizer/bpe.c.
use multi_model_llm_engine.Base.{
  ℕ, ◌+◌, ◌≡◌, refl, sym, ap, ◌∙◌, subst, some, Option-cases, Bool-cases, inl, inr, List, [], ◌∷◌,
  ◌++◌, length, length-append, ltb,
}
use multi_model_llm_engine.Tokenizer.Bytes.{mapped, map_bytes}
use multi_model_llm_engine.Tokenizer.Merge.{Sym, text_at}
use multi_model_llm_engine.Tokenizer.Merge.Tiles.{Tiles, flat}
use multi_model_llm_engine.Tokenizer.Encode.{fill}
use multi_model_llm_engine.Tokenizer.Encode.Spelt.{some_injective, none≢some}

-- The groups of single bytes that a fragment starts with.
abbrev pub singles : List ℕ → List (List ℕ)
singles [] = []
singles (c ∷ cs) = (c ∷ []) ∷ singles cs

pub flat-singles : (cs : List ℕ) → flat (singles cs) ≡ cs
unfolding flat
flat-singles [] = refl
flat-singles (c ∷ cs) = ap (λ l. c ∷ l) (flat-singles cs)

pub append-nil : (xs : List ℕ) → xs ++ [] ≡ xs
append-nil [] = refl
append-nil (x ∷ xs) = ap (λ l. x ∷ l) (append-nil xs)

pub append_assoc : (xs ys zs : List ℕ) → (xs ++ ys) ++ zs ≡ xs ++ (ys ++ zs)
append_assoc [] ys zs = refl
append_assoc (x ∷ xs) ys zs = ap (λ l. x ∷ l) (append_assoc xs ys zs)

text_at-middle :
    (pre xs post : List ℕ) → text_at (pre ++ (xs ++ post)) (length pre) (length xs) ≡ xs
text_at-middle [] [] post = refl
text_at-middle [] (x ∷ xs) post = ap (λ l. x ∷ l) (text_at-middle [] xs post)
text_at-middle (p ∷ pre) xs post = text_at-middle pre xs post

-- What the loop that fills the buffer leaves.
pub fill-Tiles :
    (pre cs buf : List ℕ) (ys : List Sym)
    → fill (length pre) cs ≡ some (buf, ys)
    → Tiles (pre ++ buf) (length pre) ys (singles cs)
unfolding fill map_bytes
fill-Tiles pre [] buf ys h =
    subst (λ v. Tiles (pre ++ v.0) (length pre) v.1 []) (some_injective h) tt
fill-Tiles pre (c ∷ cs) buf ys h = elim (Bool-cases (ltb 4096 (length pre + length (mapped c)))) [
  | inl e ↦ absurd (none≢some (rw (fill, e) at h))
  | inr e ↦ elim (Option-cases (fill (length pre + length (mapped c)) cs)) [
    | inl o ↦ absurd (none≢some (rw (fill, e, o) at h))
    | inr ((buf', ys'), o) ↦
        let whole : (mapped c ++ buf', record { off = length pre; len = length (mapped c) } ∷ ys')
            ≡ (buf, ys) =
          some_injective (rw (fill, e, o) at h) in
        let ahead : length (pre ++ mapped c) ≡ length pre + length (mapped c) =
          length-append pre (mapped c) in
        let behind = fill-Tiles (pre ++ mapped c) cs buf' ys' (ap (λ w. fill w cs) ahead ∙ o) in
        let one : map_bytes (c ∷ []) ≡ mapped c = append-nil (mapped c) in
        subst (λ v. Tiles (pre ++ v.0) (length pre) v.1 (singles (c ∷ cs))) whole
          (
            refl,
            (
              ap length (sym one),
              (
                text_at-middle pre (mapped c) buf' ∙ sym one,
                subst (λ l. Tiles l (length pre + length (mapped c)) ys' (singles cs))
                    (append_assoc pre (mapped c) buf')
                    (subst (λ k. Tiles ((pre ++ mapped c) ++ buf') k ys' (singles cs)) ahead
                      behind),
              ),
            ),
          )
  ]
]
