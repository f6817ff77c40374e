-- ===== src/Io/Experts.antt =====
-- src/io/k3_load.c: where the six tensors of a routed expert lie, and their bytes in a buffer. `find` is `k3_st_find`, and
-- `name` the text that `snprintf` makes of a layer, an expert, a matrix and whether it is the scales'.
pub mod Pieces
pub mod Bounds
pub mod Run
pub mod Each
pub mod Deliver
mod Tests
use multi_model_llm_engine.Base.{
  ℕ, zero, suc, ◌+◌, ◌-◌, ◌*◌, Bool, true, false, not, ◌&&◌, ◌||◌, Option, none, some, List, [],
  ◌∷◌, ◌++◌, ltb, leb, ◌==◌, if◌then◌else◌, length, get_elem?, get_or,
}
use multi_model_llm_engine.Base.Int.{ℤ, pos, pos_part, eq_ℤ, ltb_ℤ, ◌+ℤ◌, ◌-ℤ◌, ◌*ℤ◌, to_i32}
use multi_model_llm_engine.Io.Shards.{K3Tensor, K3Dtype, u8}
use multi_model_llm_engine.Io.Shards.Read.{Window, read_tensor, read_aligned}

-- `K3QMat`.
pub record K3QMat : Type 0 where
  pub p_off : ℤ
  pub p_bytes : ℤ
  pub s_off : ℤ
  pub s_bytes : ℤ
  pub rows : ℤ
  pub pcols : ℤ
  pub scols : ℤ

-- `K3ExpertRef`; `m` has three matrices.
pub record K3ExpertRef : Type 0 where
  pub layer : ℕ
  pub expert : ℕ
  pub shard : ℕ
  pub off : ℤ
  pub nbytes : ℤ
  pub contiguous : Bool
  pub m : List K3QMat

-- `pk[i]` and `sc[i]`.
pub record Pair : Type 0 where
  pub packed : K3Tensor
  pub scales : K3Tensor

abbrev is_u8 : K3Dtype → Bool
is_u8 u8 = true
is_u8 _ = false

-- `k3_qmat_numel`.
unfoldable pub qmat_numel : K3QMat → ℤ
qmat_numel m = m.rows *ℤ m.pcols *ℤ pos 2

abbrev pub axis : K3Tensor → ℕ → ℤ
axis t i = get_or t.shape i (pos 0)

-- The tests of one matrix: types, ranks, rows, the group of 32 elements to a scale, and the shard.
unfoldable pub agrees : Pair → Bool
agrees p =
    is_u8 p.packed.dtype
    && is_u8 p.scales.dtype
    && (length p.packed.shape == 2 && length p.scales.shape == 2)
    && eq_ℤ (axis p.packed 0) (axis p.scales 0)
    && eq_ℤ (axis p.scales 1 *ℤ pos 32) (axis p.packed 1 *ℤ pos 2)
    && p.packed.shard == p.scales.shard

-- The spans of the tensors in their order, weights before scales.
unfoldable pub spans : List Pair → List K3Tensor
spans [] = []
spans (p ∷ ps) = p.packed ∷ p.scales ∷ spans ps

unfoldable pub lowest : ℤ → List K3Tensor → ℤ
lowest lo [] = lo
lowest lo (t ∷ ts) = lowest (if ltb_ℤ t.off lo then t.off else lo) ts

unfoldable pub highest : ℤ → List K3Tensor → ℤ
highest hi [] = hi
highest hi (t ∷ ts) = highest (if ltb_ℤ hi (t.off +ℤ t.nbytes) then t.off +ℤ t.nbytes else hi) ts

unfoldable pub sum_bytes : ℤ → List K3Tensor → ℤ
sum_bytes own [] = own
sum_bytes own (t ∷ ts) = sum_bytes (own +ℤ t.nbytes) ts

unfoldable pub qmat : Pair → ℤ → ℤ → K3QMat
qmat p p_off s_off = record {
  p_off = p_off;
  p_bytes = p.packed.nbytes;
  s_off = s_off;
  s_bytes = p.scales.nbytes;
  rows = to_i32 (axis p.packed 0);
  pcols = to_i32 (axis p.packed 1);
  scols = to_i32 (axis p.scales 1);
}

-- Places in one run that begins at `lo`.
unfoldable pub in_run : ℤ → List Pair → List K3QMat
in_run lo [] = []
in_run lo (p ∷ ps) = qmat p (p.packed.off -ℤ lo) (p.scales.off -ℤ lo) ∷ in_run lo ps

-- Places one behind the other, from `o` on.
unfoldable pub one_by_one : ℤ → List Pair → List K3QMat
one_by_one o [] = []
one_by_one o (p ∷ ps) =
    qmat p o (o +ℤ p.packed.nbytes) ∷ one_by_one (o +ℤ p.packed.nbytes +ℤ p.scales.nbytes) ps

-- What follows when the pairs of a layer's expert have passed the tests.
unfoldable pub ref_of : ℕ → ℕ → Pair → List Pair → K3ExpertRef
ref_of layer expert p ps =
    let ts = spans (p ∷ ps) in
    let lo = lowest p.packed.off ts in
    let own = sum_bytes (pos 0) ts in
    let run = eq_ℤ (highest (pos 0) ts -ℤ lo) own in
    record {
      layer = layer;
      expert = expert;
      shard = p.packed.shard;
      off = lo;
      nbytes = own;
      contiguous = run;
      m = if run then in_run lo (p ∷ ps) else one_by_one (pos 0) (p ∷ ps);
    }

-- `pk[i]->shard` against `pk[0]->shard`, where there is a first matrix.
unfoldable pub in_shard : Option ℕ → Pair → Bool
in_shard none p = true
in_shard (some s) p = p.packed.shard == s

abbrev pub first_shard : Option ℕ → Pair → ℕ
first_shard none p = p.packed.shard
first_shard (some s) p = s

module _ (find : List ℕ → Option K3Tensor) (name : ℕ → ℕ → ℕ → Bool → List ℕ) where
  -- The two tensors of a matrix.
  unfoldable pub find_pair : ℕ → ℕ → ℕ → Option Pair
  find_pair layer expert i = elim (find (name layer expert i false)) [
    | none ↦ none
    | some p ↦ elim (find (name layer expert i true)) [
      | none ↦ none
      | some s ↦ some (record { packed = p; scales = s })
    ]
  ]

  -- The loop over the matrices: `left` from the `i`th on, each in the shard of the first, if there is a first.
  unfoldable pub pairs_from : ℕ → ℕ → Option ℕ → ℕ → ℕ → Option (List Pair)
  pairs_from layer expert shard i zero = some []
  pairs_from layer expert shard i (suc left) = elim (find_pair layer expert i) [
    | none ↦ none
    | some p ↦
        if not (agrees p)
        then none
        else if not (in_shard shard p)
        then none
        else elim (pairs_from layer expert (some (first_shard shard p)) (i + 1) left) [
          | none ↦ none
          | some ps ↦ some (p ∷ ps)
        ]
  ]

  -- `k3_expert_ref`.
  unfoldable pub expert_ref : ℕ → ℕ → Option K3ExpertRef
  expert_ref layer expert = elim (pairs_from layer expert none 0 3) [
    | none ↦ none
    | some [] ↦ none
    | some (p ∷ ps) ↦ some (ref_of layer expert p ps)
  ]

-- The tensor that stands for the whole run.
unfoldable pub run_tensor : K3ExpertRef → K3Tensor
run_tensor r = record {
  name = b'e' ∷ b'x' ∷ b'p' ∷ b'e' ∷ b'r' ∷ b't' ∷ [];
  shard = r.shard;
  dtype = u8;
  shape = r.nbytes ∷ [];
  off = r.off;
  nbytes = r.nbytes;
}

-- The buffer: a byte, or what stood there, which is not known.
abbrev pub Buffer : Type 0
Buffer = ℕ → Option ℕ

unfoldable pub write_at : Buffer → ℕ → List ℕ → Buffer
write_at buf at bytes j =
    if ltb j at
    then buf j
    else if ltb j (at + length bytes)
    then get_elem? bytes (j - at)
    else buf j

module _ (find : List ℕ → Option K3Tensor) (name : ℕ → ℕ → ℕ → Bool → List ℕ)
    (pread : ℕ → ℕ → ℕ → List ℕ) (fd : ℕ → ℕ) where
  -- The six reads of scattered tensors, which are looked up again: the buffer, and how many bytes arrived.
  unfoldable pub load_each : K3ExpertRef → ℕ → List K3QMat → Buffer → ℕ → Buffer × ℕ
  load_each r i [] buf got = (buf, got)
  load_each r i (m ∷ ms) buf got = elim (find_pair find name r.layer r.expert i) [
    | none ↦ (buf, got)
    | some p ↦
        let a = read_tensor pread fd p.packed in
        let b = read_tensor pread fd p.scales in
        load_each r (i + 1) ms (write_at (write_at buf (pos_part m.p_off) a) (pos_part m.s_off) b)
          (got + length a + length b)
  ]

  -- `k3_expert_load`.
  unfoldable pub expert_load : K3ExpertRef → Buffer → Buffer × ℕ
  expert_load r buf =
      let run = read_tensor pread fd (run_tensor r) in
      if r.contiguous then (write_at buf 0 run, length run) else load_each r 0 r.m buf 0

  -- `k3_expert_load_direct` of a scattered expert: the plain reads. The window of one in a run is that of
  -- `k3_st_read_aligned`.
  unfoldable pub load_direct :
      ℕ → (ℕ → Option ℕ) → K3ExpertRef → Buffer → ℕ → (Buffer × ℕ) × Option ℕ
  load_direct nshard dfd r buf bufcap =
      let w =
        read_aligned pread nshard fd dfd (pos r.shard) (pos_part r.off) (pos_part r.nbytes)
          bufcap in
      if r.contiguous
      then ((write_at buf 0 w.bytes, w.returned), w.payload_off)
      else (expert_load r buf, some 0)
