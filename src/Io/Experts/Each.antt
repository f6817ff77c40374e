-- ===== src/Io/Experts/Each.antt =====
-- The six reads of an expert of src/io/k3_load.c.
use multi_model_llm_engine.Base.{
  ℕ, ◌+◌, ◌<◌, ◌≤◌, ◌≡◌, refl, sym, ap, ◌∙◌, subst, Bool, Option, some, List, [], ◌∷◌, length,
  arith, All,
}
use multi_model_llm_engine.Base.Int.{pos, pos_part, ◌+ℤ◌, pos-add}
use multi_model_llm_engine.Storage.File.Deliver.{IsRegular}
use multi_model_llm_engine.Io.Shards.{K3Tensor}
use multi_model_llm_engine.Io.Shards.Read.{read_tensor}
use multi_model_llm_engine.Io.Experts.{
  K3QMat, K3ExpertRef, Pair, spans, sum_bytes, qmat, one_by_one, find_pair, Buffer, write_at,
  load_each,
}
use multi_model_llm_engine.Io.Experts.Pieces.{
  InFile, Copies, Loaded, write_at-inside, write_at-below, pos_of, length-read_tensor,
  read_tensor_byte,
}

-- The bytes of the pairs.
pub size_of : List Pair → ℕ
size_of [] = 0
size_of (p ∷ ps) = pos_part p.packed.nbytes + pos_part p.scales.nbytes + size_of ps

pub sum_bytes_lem :
    (contents : List ℕ) (g : ℕ) (ps : List Pair)
    → All (InFile contents) (spans ps)
    → sum_bytes (pos g) (spans ps) ≡ pos (g + size_of ps)
unfolding sum_bytes spans size_of
sum_bytes_lem contents g [] v = ap pos (omega arith)
sum_bytes_lem contents g (p ∷ ps) v =
    let a = pos_of p.packed.nbytes v.0.size in
    let b = pos_of p.scales.nbytes v.1.0.size in
    let sum : pos g +ℤ p.packed.nbytes +ℤ p.scales.nbytes
        ≡ pos (g + pos_part p.packed.nbytes + pos_part p.scales.nbytes) =
      ap (λ z. pos g +ℤ z +ℤ p.scales.nbytes) a
      ∙ ap (λ z. pos g +ℤ pos (pos_part p.packed.nbytes) +ℤ z) b
      ∙ ap (λ z. z +ℤ pos (pos_part p.scales.nbytes)) (pos-add g (pos_part p.packed.nbytes))
      ∙ pos-add (g + pos_part p.packed.nbytes) (pos_part p.scales.nbytes) in
    ap (λ z. sum_bytes z (spans ps)) sum
    ∙ sum_bytes_lem contents (g + pos_part p.packed.nbytes + pos_part p.scales.nbytes) ps v.1.1
    ∙ ap pos (omega arith)

-- The pairs that a walk finds from the `i`th matrix on, all in one shard.
unfoldable pub FoundFrom : (ℕ → Option Pair) → ℕ → List Pair → Type 0
FoundFrom at i [] = Unit {0}
FoundFrom at i (p ∷ ps) = (at i ≡ some p) × FoundFrom at (i + 1) ps

abbrev pub InShard : ℕ → List Pair → Type 0
InShard s ps = All (λ t. t.shard ≡ s) (spans ps)

-- Bytes that are written do not change what is below.
Copies-below :
    (contents : List ℕ) (buf buf' : Buffer) (o : ℕ) (t : K3Tensor) (e : ℕ)
    → ((i : ℕ) → i < e → buf' i ≡ buf i)
    → o + pos_part t.nbytes ≤ e
    → Copies contents buf (pos o) t
    → Copies contents buf' (pos o) t
unfolding Copies
Copies-below contents buf buf' o t e same room c j h = same (o + j) (omega arith) ∙ c j h

write-Copies :
    (pread : ℕ → ℕ → ℕ → List ℕ) (fd : ℕ → ℕ) (contents : List ℕ) (buf : Buffer) (o : ℕ)
    (t : K3Tensor)
    → IsRegular pread (fd t.shard) contents
    → InFile contents t
    → Copies contents (write_at buf o (read_tensor pread fd t)) (pos o) t
unfolding Copies
write-Copies pread fd contents buf o t regular v j h =
    write_at-inside buf o j (read_tensor pread fd t)
      (omega (arith, h, length-read_tensor pread fd contents t regular v))
    ∙ read_tensor_byte pread fd contents t j regular v h

-- What a walk over the pairs leaves: the bytes below its start, the pieces, and the count.
abbrev Delivered : List ℕ → Buffer → ℕ → ℕ → List Pair → List K3QMat → Buffer × ℕ → Type 0
Delivered contents buf o got ps ms out =
    ((k : ℕ) → k < o → out.0 k ≡ buf k) × Loaded contents out.0 ps ms × (out.1 ≡ got + size_of ps)

module _ (find : List ℕ → Option K3Tensor) (name : ℕ → ℕ → ℕ → Bool → List ℕ)
    (pread : ℕ → ℕ → ℕ → List ℕ) (fd : ℕ → ℕ) (contents : List ℕ) (shard : ℕ)
    (regular : IsRegular pread (fd shard) contents) where
  IsRegular-at : (t : K3Tensor) → t.shard ≡ shard → IsRegular pread (fd t.shard) contents
  IsRegular-at t e = subst (λ s. IsRegular pread (fd s) contents) (sym e) regular

  -- Six reads, one behind the other: what is below stays, and each piece is there.
  pub load_each-Loaded :
      (r : K3ExpertRef) (ps : List Pair) (i o : ℕ) (buf : Buffer) (got : ℕ)
      → FoundFrom (find_pair find name r.layer r.expert) i ps
      → All (InFile contents) (spans ps)
      → InShard shard ps
      → Delivered contents buf o got ps
          (one_by_one (pos o) ps)
          (load_each find name pread fd r i (one_by_one (pos o) ps) buf got)
  unfolding load_each one_by_one Loaded FoundFrom spans size_of qmat
  load_each-Loaded r [] i o buf got found v same = (λ k h. refl, tt, omega arith)
  load_each-Loaded r (p ∷ ps) i o buf got found v same =
      let n = pos_part p.packed.nbytes in
      let m = pos_part p.scales.nbytes in
      let a = pos_of p.packed.nbytes v.0.size in
      let b = pos_of p.scales.nbytes v.1.0.size in
      let second : pos o +ℤ p.packed.nbytes ≡ pos (o + n) = ap (λ z. pos o +ℤ z) a ∙ pos-add o n in
      let third : pos (o + n) +ℤ p.scales.nbytes ≡ pos (o + n + m) =
        ap (λ z. pos (o + n) +ℤ z) b ∙ pos-add (o + n) m in
      let one = read_tensor pread fd p.packed in
      let two = read_tensor pread fd p.scales in
      let buf' = write_at (write_at buf o one) (o + n) two in
      let rest =
        load_each-Loaded r ps (i + 1) (o + n + m) buf' (got + length one + length two) found.1 v.1.1
          same.1.1 in
      let out =
        load_each find name pread fd r (i + 1) (one_by_one (pos (o + n + m)) ps) buf'
          (got + length one + length two) in
      let first_copy =
        Copies-below contents (write_at buf o one) out.0 o p.packed (o + n)
          (λ k h. rest.0 k (omega (arith, h)) ∙ write_at-below (write_at buf o one) (o + n) k two h)
          (omega arith)
          (write-Copies pread fd contents buf o p.packed (IsRegular-at p.packed same.0) v.0) in
      let second_copy =
        Copies-below contents buf' out.0 (o + n) p.scales (o + n + m) rest.0 (omega arith) (
          write-Copies pread fd contents (write_at buf o one) (o + n) p.scales
            (IsRegular-at p.scales same.1.0) v.1.0) in
      let kept : (k : ℕ) → k < o → out.0 k ≡ buf k = λ k h.
        rest.0 k (omega (arith, h))
        ∙ write_at-below (write_at buf o one) (o + n) k two (omega (arith, h))
        ∙ write_at-below buf o k one h in
      let count : out.1 ≡ got + (n + m + size_of ps) = omega (
        arith,
        rest.2,
        length-read_tensor pread fd contents p.packed (IsRegular-at p.packed same.0) v.0,
        length-read_tensor pread fd contents p.scales (IsRegular-at p.scales same.1.0) v.1.0,
      ) in
      let places = qmat p (pos o) (pos (o + n)) ∷ one_by_one (pos (o + n + m)) ps in
      let layout : one_by_one (pos o) (p ∷ ps) ≡ places =
        ap (λ z. qmat p (pos o) z ∷ one_by_one (z +ℤ p.scales.nbytes) ps) second
        ∙ ap (λ z. qmat p (pos o) (pos (o + n)) ∷ one_by_one z ps) third in
      let step : load_each find name pread fd r i places buf got ≡ out =
        rw (load_each, found.0) refl in
      subst
        (λ ms.
          Delivered contents buf o got (p ∷ ps) ms (load_each find name pread fd r i ms buf got))
        (sym layout)
        (subst (Delivered contents buf o got (p ∷ ps) places) (sym step)
          (kept, (first_copy, second_copy, rest.1), count))
