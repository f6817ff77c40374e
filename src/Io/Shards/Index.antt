-- ===== src/Io/Shards/Index.antt =====
-- The hash index of `k3_st_open` and `k3_st_find` in src/io/k3_st.c. A bucket holds a tensor's place in the list, or
-- `none` for -1; what a probe sees of it is that place and the tensor's name, an entry as the probe of
-- Tokenizer/Map has them.
pub mod Unique
use multi_model_llm_engine.Base.{
  ℕ, zero, suc, ◌+◌, ◌*◌, Option, none, some, List, [], ◌∷◌, ◌++◌, get_elem?, length, map, ltb,
  if◌then◌else◌,
}
use multi_model_llm_engine.Base.Words.{update}
use multi_model_llm_engine.Tokenizer.Map.{Ent, Map, hit, free, looping, probe, home, capacity}
use multi_model_llm_engine.Io.Shards.Header.{scan_shard}
use multi_model_llm_engine.Io.Shards.{K3Tensor, until_nul}

-- `nb`: 1024, doubled up to twice the number of tensors. An `int` is doubled at most 20 times from there.
unfoldable pub bucket_count : ℕ → ℕ
bucket_count nt = capacity 20 nt 1024

unfoldable pub no_buckets : ℕ → Map
no_buckets nt = record { e = λ j. none; cap = bucket_count nt; n = 0 }

-- What indexing ends with: the buckets, a name that stands twice, or a loop that never ends.
pub data Indexed : Type 0 where
  indexed : Map → Indexed
  duplicate : Indexed
  endless : Indexed

-- The loop over the tensors, by their names, from the `i`th on.
unfoldable pub index_from : ℕ → List (List ℕ) → Map → Indexed
index_from i [] m = indexed m
index_from i (s ∷ names) m = elim (probe m.cap m s (home m.cap s)) [
  | hit v ↦ duplicate
  | free j ↦
      index_from (i + 1) names
        (record m { e = update m.e j (some (record { s = s; val = i })); n = m.n + 1 })
  | looping ↦ endless
]

-- The part of `k3_st_open` that builds the index.
unfoldable pub index_tensors : List K3Tensor → Indexed
index_tensors ts = index_from 0 (map (λ t. t.name) ts) (no_buckets (length ts))

-- `k3_st_find`: a tensor, NULL, or a loop that never ends.
pub data Found : Type 0 where
  tensor : K3Tensor → Found
  missing : Found
  lost : Found

abbrev pub at_place : Option K3Tensor → Found
at_place none = lost
at_place (some t) = tensor t

unfoldable pub st_find : List K3Tensor → Map → List ℕ → Found
st_find ts m name = elim (probe m.cap m (until_nul name) (home m.cap (until_nul name))) [
  | hit i ↦ at_place (get_elem? ts i)
  | free j ↦ missing
  | looping ↦ lost
]

-- `scan_shard` for each file in the order of the names, the `i`th first: a descriptor and a size for each.
unfoldable pub scan_all : (ℕ → ℕ → ℕ → List ℕ) → ℕ → List (ℕ × ℕ) → Option (List K3Tensor)
scan_all pread i [] = some []
scan_all pread i ((fd, fsize) ∷ files) = elim (scan_shard pread fd fsize i) [
  | none ↦ none
  | some (ts, s) ↦ elim (scan_all pread (i + 1) files) [
    | none ↦ none
    | some rest ↦ some (ts ++ rest)
  ]
]

-- `k3_st_open` for the sorted shards of a directory: the tensors and the index.
unfoldable pub st_open : (ℕ → ℕ → ℕ → List ℕ) → List (ℕ × ℕ) → Option (List K3Tensor × Indexed)
st_open pread [] = none
st_open pread (f ∷ files) = elim (scan_all pread 0 (f ∷ files)) [
  | none ↦ none
  | some ts ↦ some (ts, index_tensors ts)
]
