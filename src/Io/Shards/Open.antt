-- ===== src/Io/Shards/Open.antt =====
-- What `k3_st_open` of src/io/k3_st.c says of the tensors of all shards.
use multi_model_llm_engine.Base.{
  ◌≤◌, true, length, ℕ, suc, ◌+◌, ◌≡◌, refl, sym, ap, ◌∙◌, subst, none, some, List, [], ◌∷◌, ◌++◌,
  get_elem?, arith, Option-cases, inl, inr, All, All-map, All-append,
}
use multi_model_llm_engine.Base.Int.{
  ℤ, pos, ◌+ℤ◌, ◌*ℤ◌, ◌≤ℤ◌, FitsI64, to_i64, mul_i64, to_i64_fits,
}
use multi_model_llm_engine.Io.Shards.{K3Tensor, elemsize, numel_from, numel_of}
use multi_model_llm_engine.Io.Shards.Header.{is_known, scan_shard}
use multi_model_llm_engine.Io.Shards.Extents.{IsPlaced, scan_shard-IsPlaced}
use multi_model_llm_engine.Io.Shards.Index.{Indexed, scan_all, st_open}

-- The tensor is placed in the file of its shard, of those from the `i`th on.
unfoldable IsListed : ℕ → List (ℕ × ℕ) → K3Tensor → Type 0
IsListed i files t =
    (d : ℕ) × (f : ℕ × ℕ) × (t.shard ≡ i + d)
    × (get_elem? files d ≡ some f)
    × IsPlaced f.1 t.shard t

some≢none : {A : Type 0} {a : A} → none ≡ some a → ⊥
some≢none e = cc

pub some_injective : {A : Type 0} {a b : A} → some a ≡ some b → a ≡ b
some_injective e = cc

first-IsListed :
    (i : ℕ) (f : ℕ × ℕ) (files : List (ℕ × ℕ)) (t : K3Tensor)
    → IsPlaced f.1 i t
    → IsListed i (f ∷ files) t
unfolding IsListed
first-IsListed i f files t v =
    (0, f, v.here ∙ omega arith, refl, subst (λ s. IsPlaced f.1 s t) (sym v.here) v)

later-IsListed :
    (i : ℕ) (f : ℕ × ℕ) (files : List (ℕ × ℕ)) (t : K3Tensor)
    → IsListed (i + 1) files t
    → IsListed i (f ∷ files) t
unfolding IsListed
later-IsListed i f files t (d, g, a, b, c) = (suc d, g, a ∙ omega arith, b, c)

scan_all-IsListed :
    (pread : ℕ → ℕ → ℕ → List ℕ) (i : ℕ) (files : List (ℕ × ℕ)) (ts : List K3Tensor)
    → scan_all pread i files ≡ some ts
    → All (IsListed i files) ts
unfolding scan_all
scan_all-IsListed pread i [] ts e = subst (All (IsListed i [])) (some_injective e) tt
scan_all-IsListed pread i ((fd, fsize) ∷ files) ts e =
    elim (Option-cases (scan_shard pread fd fsize i)) [
      | inl a ↦ absurd (some≢none (rw (scan_all, a) at e))
      | inr ((us, s), a) ↦ elim (Option-cases (scan_all pread (i + 1) files)) [
        | inl b ↦ absurd (some≢none (rw (scan_all, a, b) at e))
        | inr (rest, b) ↦
            let whole : us ++ rest ≡ ts = some_injective (rw (scan_all, a, b) at e) in
            let here =
              All-map (IsPlaced fsize i) (IsListed i ((fd, fsize) ∷ files)) us
                (first-IsListed i (fd, fsize) files)
                (scan_shard-IsPlaced pread fd fsize i us s a) in
            let there =
              All-map (IsListed (i + 1) files) (IsListed i ((fd, fsize) ∷ files)) rest
                (later-IsListed i (fd, fsize) files)
                (scan_all-IsListed pread (i + 1) files rest b) in
            subst (All (IsListed i ((fd, fsize) ∷ files))) whole
              (All-append (IsListed i ((fd, fsize) ∷ files)) us rest here there)
      ]
    ]

-- The number of elements, and that no product on the way to it overflows.
unfoldable pub elements : ℤ → List ℤ → ℤ
elements n [] = n
elements n (d ∷ ds) = elements (n *ℤ d) ds

unfoldable pub ElementsFit : ℤ → List ℤ → Type 0
ElementsFit n [] = Unit {0}
ElementsFit n (d ∷ ds) = FitsI64 (n *ℤ d) × ElementsFit (n *ℤ d) ds

-- The size of the tensor and the end of its bytes are values of `int64_t`.
pub record DoesFit (t : K3Tensor) : Type 0 where
  pub numel : ElementsFit (pos 1) t.shape
  pub size : FitsI64 (elements (pos 1) t.shape *ℤ pos (elemsize t.dtype))
  pub end : FitsI64 (t.off +ℤ t.nbytes)

-- A tensor of one of the files: its type is known, it has four extents at most, its bytes are as many as its shape
-- and type say, and they end within that file.
unfoldable pub IsFiled : List (ℕ × ℕ) → K3Tensor → Type 0
IsFiled files t =
    (f : ℕ × ℕ) × (get_elem? files t.shard ≡ some f)
    × (is_known t.dtype ≡ true)
    × (length t.shape ≤ 4)
    × (t.nbytes ≡ elements (pos 1) t.shape *ℤ pos (elemsize t.dtype))
    × (t.off +ℤ t.nbytes ≤ℤ pos f.1)

numel_from_fits : (n : ℤ) (s : List ℤ) → ElementsFit n s → numel_from n s ≡ elements n s
unfolding numel_from elements ElementsFit mul_i64
numel_from_fits n [] h = refl
numel_from_fits n (d ∷ ds) (h, hs) =
    ap (λ m. numel_from m ds) (to_i64_fits (n *ℤ d) h) ∙ numel_from_fits (n *ℤ d) ds hs

listed-IsFiled :
    (files : List (ℕ × ℕ)) (t : K3Tensor) → IsListed 0 files t → DoesFit t → IsFiled files t
unfolding IsListed IsFiled mul_i64 numel_of
listed-IsFiled files t (d, f, here, at, v) fits =
    let same : t.shard ≡ d = omega (arith, here) in
    (
      f,
      ap (get_elem? files) same ∙ at,
      v.known,
      v.rank,
      v.sized
          ∙ ap (λ n. to_i64 (n *ℤ pos (elemsize t.dtype)))
              (numel_from_fits (pos 1) t.shape fits.numel)
          ∙ to_i64_fits _ fits.size,
      v.ends fits.end,
    )

All-both :
    {A : Type 0} (P Q R : A → Type 0) (xs : List A)
    → ((x : A) → P x → Q x → R x)
    → All P xs
    → All Q xs
    → All R xs
All-both P Q R [] f h k = tt
All-both P Q R (x ∷ xs) f h k = (f x h.0 k.0, All-both P Q R xs f h.1 k.1)

-- After `k3_st_open`, if for each tensor neither the products of its shape and type nor the sum of its offset and its
-- size overflow, each names a shard that was opened, has a type of the format and four extents at most, takes as many
-- bytes as its shape and type say, and ends within the file of that shard.
pub st_open-IsFiled :
    (pread : ℕ → ℕ → ℕ → List ℕ) (files : List (ℕ × ℕ)) (ts : List K3Tensor) (index : Indexed)
    → st_open pread files ≡ some (ts, index)
    → All DoesFit ts
    → All (IsFiled files) ts
unfolding st_open
st_open-IsFiled pread [] ts index e fits = cc
st_open-IsFiled pread (f ∷ files) ts index e fits =
    elim (Option-cases (scan_all pread 0 (f ∷ files))) [
      | inl a ↦ absurd (some≢none (rw (st_open, a) at e))
      | inr (us, a) ↦
          let same : us ≡ ts =
            ap (λ (p : List K3Tensor × Indexed). p.0) (some_injective (rw (st_open, a) at e)) in
          All-both (IsListed 0 (f ∷ files)) DoesFit (IsFiled (f ∷ files)) ts
            (listed-IsFiled (f ∷ files))
            (subst (All (IsListed 0 (f ∷ files))) same (scan_all-IsListed pread 0 (f ∷ files) us a))
            fits
    ]
