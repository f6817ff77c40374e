-- ===== src/Io/Experts/Pieces.antt =====
-- What it is for a buffer to have the bytes of a tensor, and the reads of a tensor of src/io/k3_st.c.
use multi_model_llm_engine.Base.{
  ℕ, zero, suc, ◌+◌, ◌-◌, ◌<◌, ◌≡◌, refl, ap, ◌∙◌, true, false, List, [], ◌∷◌, ltb, length, take,
  drop, length-take, length-drop, get_elem?, arith,
}
use multi_model_llm_engine.Base.Int.{
  ℤ, pos, negsuc, pos_part, neg_part, ◌≤ℤ◌, ◌+ℤ◌, ltb_ℤ, +ℤ_parts,
}
use multi_model_llm_engine.Storage.File.Deliver.{IsRegular, pread_all_lem}
use multi_model_llm_engine.Io.Shards.{K3Tensor}
use multi_model_llm_engine.Io.Shards.Read.{read_tensor}
use multi_model_llm_engine.Io.Experts.{K3QMat, Pair, Buffer, write_at}

-- The tensor's bytes are in the file.
pub record InFile (contents : List ℕ) (t : K3Tensor) : Type 0 where
  pub begins : pos 0 ≤ℤ t.off
  pub size : pos 0 ≤ℤ t.nbytes
  pub ends : t.off +ℤ t.nbytes ≤ℤ pos (length contents)

-- The buffer has the tensor's bytes from a place on.
unfoldable pub Copies : List ℕ → Buffer → ℤ → K3Tensor → Type 0
Copies contents buf at t =
    (j : ℕ)
    → j < pos_part t.nbytes
    → buf (pos_part at + j) ≡ get_elem? contents (pos_part t.off + j)

-- Each matrix has the bytes of its two tensors at its two places.
unfoldable pub Loaded : List ℕ → Buffer → List Pair → List K3QMat → Type 0
Loaded contents buf [] [] = Unit {0}
Loaded contents buf [] (m ∷ ms) = ⊥
Loaded contents buf (p ∷ ps) [] = ⊥
Loaded contents buf (p ∷ ps) (m ∷ ms) =
    Copies contents buf m.p_off p.packed
    × Copies contents buf m.s_off p.scales
    × Loaded contents buf ps ms

get_elem?-take : (n j : ℕ) (xs : List ℕ) → j < n → get_elem? (take n xs) j ≡ get_elem? xs j
get_elem?-take zero j xs h = absurd (omega arith)
get_elem?-take (suc n) j [] h = refl
get_elem?-take (suc n) zero (x ∷ xs) h = refl
get_elem?-take (suc n) (suc j) (x ∷ xs) h = get_elem?-take n j xs (omega arith)

get_elem?-drop : (k j : ℕ) (xs : List ℕ) → get_elem? (drop k xs) j ≡ get_elem? xs (k + j)
get_elem?-drop zero j xs = ap (get_elem? xs) (omega arith)
get_elem?-drop (suc k) j [] = refl
get_elem?-drop (suc k) j (x ∷ xs) =
    let step : suc k + j ≡ suc (k + j) = omega arith in rw step (get_elem?-drop k j xs)

pub write_at-inside :
    (buf : Buffer) (at j : ℕ) (bytes : List ℕ)
    → j < length bytes
    → write_at buf at bytes (at + j) ≡ get_elem? bytes j
unfolding write_at
write_at-inside buf at j bytes h =
    let a : ltb (at + j) at ≡ false = ground arith in
    let b : ltb (at + j) (at + length bytes) ≡ true = ground arith in
    let c : at + j - at ≡ j = omega arith in rw (a, b, c) refl

pub write_at-below :
    (buf : Buffer) (at i : ℕ) (bytes : List ℕ) → i < at → write_at buf at bytes i ≡ buf i
unfolding write_at
write_at-below buf at i bytes h = let a : ltb i at ≡ true = ground arith in rw a refl

pub pos_of : (a : ℤ) → pos 0 ≤ℤ a → a ≡ pos (pos_part a)
pos_of (pos n) h = refl
pos_of (negsuc n) h = absurd (omega arith)

pub no_neg : (a : ℤ) → pos 0 ≤ℤ a → neg_part a ≡ 0
no_neg (pos n) h = refl
no_neg (negsuc n) h = absurd (omega arith)

module _ (pread : ℕ → ℕ → ℕ → List ℕ) (fd : ℕ → ℕ) (contents : List ℕ) where
  read_tensor_lem :
      (t : K3Tensor)
      → IsRegular pread (fd t.shard) contents
      → InFile contents t
      → read_tensor pread fd t ≡ take (pos_part t.nbytes) (drop (pos_part t.off) contents)
  unfolding read_tensor
  read_tensor_lem t regular v =
      let fine : ltb_ℤ t.off (pos 0) ≡ false = ground (arith, v.begins) in
      rw fine
        (pread_all_lem pread (fd t.shard) contents regular (pos_part t.nbytes) (pos_part t.off))

  pub length-read_tensor :
      (t : K3Tensor)
      → IsRegular pread (fd t.shard) contents
      → InFile contents t
      → length (read_tensor pread fd t) ≡ pos_part t.nbytes
  length-read_tensor t regular v =
      ap length (read_tensor_lem t regular v)
      ∙ omega (
        arith,
        length-take (pos_part t.nbytes) (drop (pos_part t.off) contents),
        length-drop (pos_part t.off) contents,
        v.ends,
        +ℤ_parts t.off t.nbytes,
        no_neg t.off v.begins,
        no_neg t.nbytes v.size,
      )

  pub read_tensor_byte :
      (t : K3Tensor) (j : ℕ)
      → IsRegular pread (fd t.shard) contents
      → InFile contents t
      → j < pos_part t.nbytes
      → get_elem? (read_tensor pread fd t) j ≡ get_elem? contents (pos_part t.off + j)
  read_tensor_byte t j regular v h =
      ap (λ bs. get_elem? bs j) (read_tensor_lem t regular v)
      ∙ get_elem?-take (pos_part t.nbytes) j (drop (pos_part t.off) contents) h
      ∙ get_elem?-drop (pos_part t.off) j contents
