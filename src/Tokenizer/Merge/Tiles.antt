-- ===== src/Tokenizer/Merge/Tiles.antt =====
-- How the pieces of a fragment lie in the buffer during the merges of src/tokenizer/bpe.c.
use multi_model_llm_engine.Base.{
  ℕ, zero, suc, ◌+◌, ◌≡◌, refl, sym, ap, ◌∙◌, subst, none, Option-cases, inl, inr, List, [], ◌∷◌,
  ◌++◌, length, take, drop, length-append, arith,
}
use multi_model_llm_engine.Tokenizer.Bytes.{mapped, map_bytes}
use multi_model_llm_engine.Tokenizer.State.{EngBpe}
use multi_model_llm_engine.Tokenizer.Merge.{Sym, text_at, best_pair, join_at, merge_loop}

-- `groups` are the bytes of the pieces `ys`, which lie in `buf` from `off` on.
abbrev pub Tiles : List ℕ → ℕ → List Sym → List (List ℕ) → Type 0
Tiles buf off [] [] = Unit
Tiles buf off [] (g ∷ gs) = ⊥
Tiles buf off (y ∷ ys) [] = ⊥
Tiles buf off (y ∷ ys) (g ∷ gs) =
    (y.off ≡ off)
    × ((y.len ≡ length (map_bytes g))
        × ((text_at buf off y.len ≡ map_bytes g) × Tiles buf (off + y.len) ys gs))

unfoldable pub flat : List (List ℕ) → List ℕ
flat [] = []
flat (g ∷ gs) = g ++ flat gs

append_assoc : (xs ys zs : List ℕ) → (xs ++ ys) ++ zs ≡ xs ++ (ys ++ zs)
append_assoc [] ys zs = refl
append_assoc (x ∷ xs) ys zs = ap (λ l. x ∷ l) (append_assoc xs ys zs)

pub map_bytes-append : (xs ys : List ℕ) → map_bytes (xs ++ ys) ≡ map_bytes xs ++ map_bytes ys
unfolding map_bytes
map_bytes-append [] ys = refl
map_bytes-append (x ∷ xs) ys =
    ap (λ l. mapped x ++ l) (map_bytes-append xs ys)
    ∙ sym (append_assoc (mapped x) (map_bytes xs) (map_bytes ys))

take_nil : (n : ℕ) → take {A = ℕ} n [] ≡ []
take_nil zero = refl
take_nil (suc n) = refl

drop_nil : (n : ℕ) → drop {A = ℕ} n [] ≡ []
drop_nil zero = refl
drop_nil (suc n) = refl

take-add : (n m : ℕ) (xs : List ℕ) → take (n + m) xs ≡ take n xs ++ take m (drop n xs)
take-add zero m xs = ap (λ k. take k xs) (omega arith)
take-add (suc n) m [] = take_nil (suc n + m) ∙ sym (take_nil m)
take-add (suc n) m (x ∷ xs) =
    let e : suc n + m ≡ suc (n + m) = omega arith in
    ap (λ k. take k (x ∷ xs)) e ∙ ap (λ l. x ∷ l) (take-add n m xs)

drop-drop : (n m : ℕ) (xs : List ℕ) → drop m (drop n xs) ≡ drop (n + m) xs
drop-drop zero m xs = ap (λ k. drop k xs) (omega arith)
drop-drop (suc n) m [] = drop_nil m ∙ sym (drop_nil (suc n + m))
drop-drop (suc n) m (x ∷ xs) =
    let e : suc n + m ≡ suc (n + m) = omega arith in
    drop-drop n m xs ∙ sym (ap (λ k. drop k (x ∷ xs)) e)

text_at-add :
    (buf : List ℕ) (off n m : ℕ)
    → text_at buf off (n + m) ≡ text_at buf off n ++ text_at buf (off + n) m
text_at-add buf off n m =
    take-add n m (drop off buf) ∙ ap (λ l. take n (drop off buf) ++ take m l) (drop-drop off n buf)

-- A merge joins two neighbouring groups.
pub join_at-Tiles :
    (buf : List ℕ) (off i : ℕ) (ys : List Sym) (gs : List (List ℕ))
    → Tiles buf off ys gs
    → (gs' : List (List ℕ)) × (Tiles buf off (join_at i ys) gs' × (flat gs' ≡ flat gs))
unfolding join_at flat
join_at-Tiles buf off i [] gs h = (gs, (h, refl))
join_at-Tiles buf off i (x ∷ []) gs h = (gs, (h, refl))
join_at-Tiles buf off i (x ∷ y ∷ ys) [] h = absurd h
join_at-Tiles buf off i (x ∷ y ∷ ys) (g ∷ []) (e, (l, (t, h))) = absurd h
join_at-Tiles buf off zero (x ∷ y ∷ ys) (g ∷ g' ∷ gs) (e, (l, (t, (e', (l', (t', h)))))) = (
  (g ++ g') ∷ gs,
  (
    (
      e,
      (
        both,
        (
          text_at-add buf off x.len y.len
              ∙ ap (λ v. v ++ text_at buf (off + x.len) y.len) t
              ∙ ap (λ v. map_bytes g ++ v) t'
              ∙ sym (map_bytes-append g g'),
          subst (λ o. Tiles buf o ys gs) (omega arith) h,
        ),
      ),
    ),
    append_assoc g g' (flat gs),
  ),
)
  where
    both : x.len + y.len ≡ length (map_bytes (g ++ g'))
    both = omega (
      arith,
      l,
      l',
      length-append (map_bytes g) (map_bytes g'),
      ap length (map_bytes-append g g'),
    )
join_at-Tiles buf off (suc i) (x ∷ y ∷ ys) (g ∷ g' ∷ gs) (e, (l, (t, h))) =
    let (gs', (h', f)) = join_at-Tiles buf (off + x.len) i (y ∷ ys) (g' ∷ gs) h in
    (g ∷ gs', ((e, (l, (t, h'))), ap (λ v. g ++ v) f))

pub merge_loop-Tiles :
    (fuel : ℕ) (b : EngBpe) (buf : List ℕ) (ys : List Sym) (gs : List (List ℕ))
    → Tiles buf 0 ys gs
    → (gs' : List (List ℕ)) × (Tiles buf 0 (merge_loop fuel b buf ys) gs' × (flat gs' ≡ flat gs))
unfolding merge_loop
merge_loop-Tiles zero b buf ys gs h = (gs, (h, refl))
merge_loop-Tiles (suc fuel) b buf ys gs h = elim (Option-cases (best_pair b buf 0 ys none)) [
  | inl o ↦ rw (merge_loop, o) (gs, (h, refl))
  | inr ((i, r), o) ↦
      let (gs₁, (h₁, f₁)) = join_at-Tiles buf 0 i ys gs h in
      let (gs₂, (h₂, f₂)) = merge_loop-Tiles fuel b buf (join_at i ys) gs₁ h₁ in
      rw (merge_loop, o) (gs₂, (h₂, f₂ ∙ f₁))
]
