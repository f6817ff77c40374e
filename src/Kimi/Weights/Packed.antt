-- ===== src/Kimi/Weights/Packed.antt =====
-- `k3_bind_layer_mem` of src/model/k3_bind.c, which binds a layer from a packed run. What is written into the widen area
-- is left out, its places are not. `find` is `src->find`, and `name` what `snprintf` makes of a layer and a weight.
pub mod Room
use multi_model_llm_engine.Base.{
  ℕ, ◌+◌, ◌-◌, ◌*◌, ◌/◌, ◌%◌, Bool, true, false, not, ◌&&◌, ◌||◌, Option, none, some, List, [], ◌∷◌,
  ◌==◌, ltb, if◌then◌else◌,
}
use multi_model_llm_engine.Base.Int.{ℤ, pos, negsuc, pos_part, eq_ℤ, ltb_ℤ, leb_ℤ, ◌-ℤ◌, ◌/ℤ◌}
use multi_model_llm_engine.Io.Shards.{K3Dtype, unknown, u8, bf16, f16, f32, i8r}
use multi_model_llm_engine.Kimi.Weights.{K3Cfg, Weight, Req, plan_layer}
use multi_model_llm_engine.Kimi.Weights.Resolve.{align8}

-- What `find` tells of a tensor in the run.
pub record PackedTensor : Type 0 where
  pub off : ℤ
  pub nbytes : ℤ
  pub dtype : K3Dtype

-- Where a field points: into the run, or into the widen area.
pub data Address : Type 0 where
  in_run : ℤ → Address
  in_widen : ℕ → Address

-- Why binding fails.
pub data BindProblem : Type 0 where
  not_present bad_layout bad_shape too_small wrong_count not_widened mixed : BindProblem

pub data Result (A : Type 0) : Type 0 where
  ok : A → Result A
  err : BindProblem → Result A

-- `w`, `narrowed_all`, `i8_seen`, and the fields set so far, the last first.
pub record Progress : Type 0 where
  pub used : ℕ
  pub narrowed_all : Bool
  pub i8_seen : Bool
  pub fields : List (Weight × Address)

abbrev pub nothing_bound : Progress
nothing_bound = record { used = 0; narrowed_all = true; i8_seen = false; fields = [] }

-- `k3_bind_widen_bytes`.
unfoldable pub widen_bytes : K3Cfg → ℕ
widen_bytes c = (6 * c.hidden + c.q_lora + c.kv_lora + c.latent + c.n_experts * c.hidden) * 4 + 4096

unfoldable pub element_size : K3Dtype → ℕ
element_size f32 = 4
element_size u8 = 1
element_size _ = 2

unfoldable pub point : Progress → Weight → ℤ → Progress
point p d off = record p { fields = (d, in_run off) ∷ p.fields }

-- A place for `take` floats in the widen area.
unfoldable pub take_room : ℕ → Progress → Req → Result Progress
take_room cap' p q =
    if ltb cap' (align8 p.used + q.take * 4)
    then err too_small
    else ok (record p {
      used = align8 p.used + q.take * 4;
      fields = (q.dest, in_widen (align8 p.used)) ∷ p.fields;
    })

abbrev pub divides : ℕ → ℤ → Bool
divides d (pos n) = n % d == 0
divides d (negsuc n) = (n + 1) % d == 0

-- A tensor in rows of a scale and bytes: `rows`, as the remainder of C division tells.
unfoldable pub bind_i8r : ℕ → Progress → Req → PackedTensor → Result Progress
bind_i8r cap' p q t =
    let scales = t.nbytes -ℤ pos q.take in
    let rows = scales /ℤ 4 in
    if q.narrow
    then ok (record (point p q.dest t.off) { i8_seen = true })
    else if not (divides 4 scales)
    then err bad_layout
    else if leb_ℤ rows (pos 0) || not (q.take % pos_part rows == 0)
    then err bad_shape
    else take_room cap' p q

abbrev pub is_f32 : K3Dtype → Bool
is_f32 f32 = true
is_f32 _ = false

abbrev pub is_bf16 : K3Dtype → Bool
is_bf16 bf16 = true
is_bf16 _ = false

unfoldable pub bind_elements : ℕ → Progress → Req → PackedTensor → Result Progress
bind_elements cap' p q t =
    let have = t.nbytes /ℤ element_size t.dtype in
    let p' : Progress = record p {
      narrowed_all = p.narrowed_all && not (q.narrow && not (is_bf16 t.dtype));
    } in
    if not (eq_ℤ have (pos q.want))
    then err wrong_count
    else if ltb_ℤ have (pos q.take)
    then err wrong_count
    else if q.narrow && is_bf16 t.dtype
    then ok (point p q.dest t.off)
    else if is_f32 t.dtype
    then ok (point p' q.dest t.off)
    else if not (is_bf16 t.dtype)
    then err not_widened
    else take_room cap' p' q

unfoldable pub bind_one : ℕ → Progress → Req → PackedTensor → Result Progress
bind_one cap' p q t = elim t.dtype [ i8r ↦ bind_i8r cap' p q t | _ ↦ bind_elements cap' p q t ]

module _ (find : List ℕ → Option PackedTensor) (name : Weight → List ℕ) (cap' : ℕ) where
  unfoldable pub bind_from : Progress → List Req → Result Progress
  bind_from p [] = ok p
  bind_from p (q ∷ qs) = elim (find (name q.dest)) [
    | none ↦ err not_present
    | some t ↦ elim (bind_one cap' p q t) [ err e ↦ err e | ok p' ↦ bind_from p' qs ]
  ]

  -- `k3_bind_layer_mem`: the fields, what was used of the widen area, and whether the tag is K3_WI8.
  unfoldable pub bind_layer_mem : K3Cfg → ℕ → Result Progress
  bind_layer_mem c layer = elim (bind_from nothing_bound (plan_layer true c layer)) [
    | err e ↦ err e
    | ok p ↦ if not p.narrowed_all && not p.i8_seen then err mixed else ok p
  ]
