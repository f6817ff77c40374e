-- ===== src/Kimi/Weights/Resolve.antt =====
-- `plan_resolve` of src/model/k3_bind.c and its callers up to the reads. `find` is `k3_st_find` and `name` what `snprintf`
-- makes of a layer and a weight; `none` is -1. Sizes stay below 2^64.
pub mod Layout
pub mod Laid
pub mod Filed
use multi_model_llm_engine.Base.{
  ℕ, ◌+◌, ◌-◌, ◌*◌, ◌%◌, Bool, true, false, not, ◌&&◌, ◌||◌, Option, none, some, List, [], ◌∷◌,
  ◌==◌, if◌then◌else◌,
}
use multi_model_llm_engine.Base.Int.{ℤ, pos, eq_ℤ, ltb_ℤ}
use multi_model_llm_engine.Io.Shards.{K3Tensor, K3Dtype, bf16, numel_of}
use multi_model_llm_engine.Kimi.Weights.{K3Cfg, Weight, Req, plan_layer, plan_model}

-- `align8`.
unfoldable pub align8 : ℕ → ℕ
align8 x = (x + 7) - (x + 7) % 8

-- A request that is resolved: its tensor, its place in the blob, and how it is stored.
pub record Bound : Type 0 where
  pub req : Req
  pub tensor : K3Tensor
  pub off : ℕ
  pub narrow : Bool

abbrev is_bf16 : K3Dtype → Bool
is_bf16 bf16 = true
is_bf16 _ = false

-- The bytes that a request takes in the blob.
unfoldable pub blob_bytes : ℕ → Bool → ℕ
blob_bytes n narrow = n * (if narrow then 2 else 4)

-- What a plan comes to: the requests in their places, the size of the blob, and how many had to be widened.
pub record Resolved : Type 0 where
  pub bound : List Bound
  pub size : ℕ
  pub demoted : ℕ

-- The tests of one request against its tensor.
unfoldable pub accepts : Req → K3Tensor → Bool → Bool
accepts q t narrow =
    eq_ℤ (numel_of t.shape) (pos q.want)
    && not (ltb_ℤ (numel_of t.shape) (pos q.take))
    && not (narrow && not (eq_ℤ (pos q.take) (numel_of t.shape)))

module _ (find : List ℕ → Option K3Tensor) (name : Weight → List ℕ) where
  unfoldable pub resolve : ℕ → List Req → Option Resolved
  resolve off [] = some (record { bound = []; size = off; demoted = 0 })
  resolve off (q ∷ qs) = elim (find (name q.dest)) [
    | none ↦ none
    | some t ↦
        let narrow = q.narrow && is_bf16 t.dtype in
        if not (accepts q t narrow)
        then none
        else elim (resolve (align8 off + blob_bytes q.take narrow) qs) [
          | none ↦ none
          | some r ↦ some (record {
            bound = record { req = q; tensor = t; off = align8 off; narrow = narrow } ∷ r.bound;
            size = r.size;
            demoted = (if q.narrow && not (is_bf16 t.dtype) then 1 else 0) + r.demoted;
          })
        ]
  ]

  -- With one large tensor that is not BF16, all are planned again as widened. The second is `wdt`: whether the
  -- structs are tagged K3_WBF16.
  unfoldable pub bind_plan : (Bool → List Req) → Option (Resolved × Bool)
  bind_plan plan = elim (resolve 0 (plan true)) [
    | none ↦ none
    | some r ↦
        if r.demoted == 0
        then some (r, true)
        else elim (resolve 0 (plan false)) [ none ↦ none | some r' ↦ some (r', false) ]
  ]

-- The plans of `k3_bind_layer` and `k3_bind_model`, and `k3_bind_layer_bytes`.
module _ (find : List ℕ → Option K3Tensor) (name : ℕ → Weight → List ℕ) where
  unfoldable pub bind_layer : K3Cfg → ℕ → Option (Resolved × Bool)
  bind_layer c layer = bind_plan find (name layer) (λ ok. plan_layer ok c layer)

  unfoldable pub bind_layer_bytes : K3Cfg → ℕ → Option ℕ
  bind_layer_bytes c layer = elim (resolve find (name layer) 0 (plan_layer true c layer)) [
    | none ↦ none
    | some r ↦ some r.size
  ]

  unfoldable pub bind_model : K3Cfg → Bool → Option (Resolved × Bool)
  bind_model c want_lm_head = bind_plan find (name 0) (λ ok. plan_model ok c want_lm_head)
