-- ===== src/Kimi/Weights/Packed/Room.antt =====
-- The widen area of src/model/k3_bind.c and `k3_bind_widen_bytes`.
use multi_model_llm_engine.Base.{
  ℕ, ◌+◌, ◌-◌, ◌*◌, ◌%◌, ◌≤◌, ◌≡◌, ◌≢◌, refl, inl, inr, Bool, true, false, not, ◌&&◌, ◌||◌, Option,
  none, some, List, [], ◌∷◌, ltb, ◌==◌, if◌then◌else◌, arith, Bool-cases,
}
use multi_model_llm_engine.Base.Int.{ℤ, pos, pos_part, eq_ℤ, ltb_ℤ, leb_ℤ, ◌-ℤ◌, ◌/ℤ◌}
use multi_model_llm_engine.Io.Shards.{K3Dtype, unknown, u8, bf16, f16, f32, i8r}
use multi_model_llm_engine.Kimi.Weights.{
  K3Cfg, Weight, Req, reqw, reqw_prefix, reqn, norm_reqs, mla_reqs, kda_reqs, dense_reqs, moe_reqs,
  plan_layer, is_mla, is_dense_layer,
}
use multi_model_llm_engine.Kimi.Weights.Resolve.{align8}
use multi_model_llm_engine.Kimi.Weights.Packed.{
  PackedTensor, BindProblem, too_small, mixed, Result, ok, err, Progress, nothing_bound,
  widen_bytes, point, take_room, bind_i8r, bind_elements, bind_one, bind_from, bind_layer_mem,
  element_size, is_f32, is_bf16, divides,
}

-- The weights that are widened where they are BF16, and for which `k3_bind_widen_bytes` has no room.
unfoldable pub is_uncounted : Weight → Bool
is_uncounted Weight.kda_q_conv = true
is_uncounted Weight.kda_k_conv = true
is_uncounted Weight.kda_v_conv = true
is_uncounted Weight.kda_a_log = true
is_uncounted Weight.kda_dt_bias = true
is_uncounted Weight.kda_o_norm = true
is_uncounted Weight.moe_bias = true
is_uncounted _ = false

-- What a request can take of the area.
cost : Req → ℕ
cost q = if q.narrow then 0 else if is_uncounted q.dest then 0 else q.take * 4 + 7

costs : List Req → ℕ
costs [] = 0
costs (q ∷ qs) = cost q + costs qs

-- The area is used up to a bound at most, and its end is not why binding fails.
abbrev pub Within : ℕ → Result Progress → Type 0
Within bound (ok p) = p.used ≤ bound
Within bound (err e) = e ≢ too_small

take_room-Within :
    (cap' bound : ℕ) (p : Progress) (q : Req)
    → (p.used + (q.take * 4 + 7) ≤ cap') × (p.used + (q.take * 4 + 7) ≤ bound)
    → Within bound (take_room cap' p q)
unfolding take_room align8
take_room-Within cap' bound p q (h, k) =
    let fits : ltb cap' ((p.used + 7) - (p.used + 7) % 8 + q.take * 4) ≡ false = ground arith in
    rw fits (omega (arith, k))

choose-Within :
    (bound : ℕ) (b : Bool) (r s : Result Progress)
    → (b ≡ true → Within bound r)
    → (b ≡ false → Within bound s)
    → Within bound (if b then r else s)
choose-Within bound true r s h k = h refl
choose-Within bound false r s h k = k refl

layout≢small : BindProblem.bad_layout ≢ too_small
layout≢small e = cc

shape≢small : BindProblem.bad_shape ≢ too_small
shape≢small e = cc

count≢small : BindProblem.wrong_count ≢ too_small
count≢small e = cc

widened≢small : BindProblem.not_widened ≢ too_small
widened≢small e = cc

present≢small : BindProblem.not_present ≢ too_small
present≢small e = cc

mixed≢small : BindProblem.mixed ≢ too_small
mixed≢small e = cc

-- There is room for a request that is widened.
abbrev HasRoom : ℕ → ℕ → Progress → Req → Type 0
HasRoom cap' bound p q = (p.used + (q.take * 4 + 7) ≤ cap') × (p.used + (q.take * 4 + 7) ≤ bound)

bind_i8r-Within :
    (cap' bound : ℕ) (p : Progress) (q : Req) (t : PackedTensor)
    → p.used ≤ bound
    → (q.narrow ≡ false → HasRoom cap' bound p q)
    → Within bound (bind_i8r cap' p q t)
unfolding bind_i8r point take_room
bind_i8r-Within cap' bound p q t h room =
    let scales = t.nbytes -ℤ pos q.take in
    elim (Bool-cases q.narrow) [
      | inl e ↦ rw e h
      | inr wide ↦ rw wide (elim (Bool-cases (not (divides 4 scales))) [
        | inl e ↦ rw e layout≢small
        | inr e ↦
            rw e
              (elim (Bool-cases
                (leb_ℤ (scales /ℤ 4) (pos 0) || not (q.take % pos_part (scales /ℤ 4) == 0))) [
                  | inl f ↦ rw f shape≢small
                  | inr f ↦ rw f (take_room-Within cap' bound p q (room wide))
                ])
      ])
    ]

-- A request that is kept narrow is kept where its tensor is BF16.
wide_lem : (a b : Bool) → (a && b) ≡ false → not b ≡ false → a ≡ false
wide_lem true true e f = e
wide_lem true false e f = cc
wide_lem false b e f = refl

bind_elements-Within :
    (cap' bound : ℕ) (p : Progress) (q : Req) (t : PackedTensor)
    → p.used ≤ bound
    → (q.narrow ≡ false → is_f32 t.dtype ≡ false → HasRoom cap' bound p q)
    → Within bound (bind_elements cap' p q t)
unfolding bind_elements point
bind_elements-Within cap' bound p q t h room =
    let have = t.nbytes /ℤ element_size t.dtype in
    let p' : Progress = record p {
      narrowed_all = p.narrowed_all && not (q.narrow && not (is_bf16 t.dtype));
    } in
    elim (Bool-cases (not (eq_ℤ have (pos q.want)))) [
      | inl e ↦ rw e count≢small
      | inr e ↦ rw e (elim (Bool-cases (ltb_ℤ have (pos q.take))) [
        | inl f ↦ rw f count≢small
        | inr f ↦ rw f (elim (Bool-cases (q.narrow && is_bf16 t.dtype)) [
          | inl a ↦ rw a h
          | inr a ↦ rw a (elim (Bool-cases (is_f32 t.dtype)) [
            | inl b ↦ rw b h
            | inr b ↦ rw b (
                choose-Within bound (not (is_bf16 t.dtype)) (err BindProblem.not_widened)
                  (take_room cap' p' q) (λ _. widened≢small)
                  (λ d.
                    take_room-Within cap' bound p' q
                      (room (wide_lem q.narrow (is_bf16 t.dtype) a d) b)))
          ])
        ])
      ])
    ]

bind_one-Within :
    (cap' bound : ℕ) (p : Progress) (q : Req) (off nbytes : ℤ) (dtype : K3Dtype)
    → p.used ≤ bound
    → (q.narrow ≡ false → is_f32 dtype ≡ false → HasRoom cap' bound p q)
    → Within bound (bind_one cap' p q (record { off = off; nbytes = nbytes; dtype = dtype }))
unfolding bind_one
bind_one-Within cap' bound p q off nbytes i8r h room =
    bind_i8r-Within cap' bound p q _ h (λ e. room e refl)
bind_one-Within cap' bound p q off nbytes unknown h room =
    bind_elements-Within cap' bound p q _ h room
bind_one-Within cap' bound p q off nbytes u8 h room = bind_elements-Within cap' bound p q _ h room
bind_one-Within cap' bound p q off nbytes bf16 h room = bind_elements-Within cap' bound p q _ h room
bind_one-Within cap' bound p q off nbytes f16 h room = bind_elements-Within cap' bound p q _ h room
bind_one-Within cap' bound p q off nbytes f32 h room = bind_elements-Within cap' bound p q _ h room

-- What is found for the requests of a plan.
unfoldable pub InPlaces : (List ℕ → Option PackedTensor) → (Weight → List ℕ) → Type 0
InPlaces find name =
    (d : Weight) (t : PackedTensor)
    → is_uncounted d ≡ true
    → find (name d) ≡ some t
    → is_f32 t.dtype ≡ true

then-Within :
    (bound cap' : ℕ) (r : Result Progress) (f : Progress → Result Progress)
    → Within bound r
    → ((p : Progress) → p.used ≤ bound → Within cap' (f p))
    → Within cap' (elim r [ err e ↦ err e | ok p ↦ f p ])
then-Within bound cap' (err e) f k go = k
then-Within bound cap' (ok p) f k go = go p k

found-Within :
    (bound : ℕ) (o : Option PackedTensor) (f : PackedTensor → Result Progress)
    → ((t : PackedTensor) → o ≡ some t → Within bound (f t))
    → Within bound (elim o [ none ↦ err BindProblem.not_present | some t ↦ f t ])
found-Within bound none f go = present≢small
found-Within bound (some t) f go = go t refl

cost-HasRoom :
    (p : Progress) (q : Req) (cap' n : ℕ)
    → p.used + (cost q + n) ≤ cap'
    → q.narrow ≡ false
    → is_uncounted q.dest ≡ false
    → HasRoom cap' (p.used + cost q) p q
unfolding cost
cost-HasRoom p q cap' n h wide counted =
    let e : cost q ≡ q.take * 4 + 7 = rw (wide, counted) refl in
    (omega (arith, h, e), omega (arith, e))

bind_from-Within :
    (find : List ℕ → Option PackedTensor) (name : Weight → List ℕ) (cap' : ℕ)
    → InPlaces find name
    → (p : Progress) (qs : List Req) → p.used + costs qs ≤ cap'
    → Within cap' (bind_from find name cap' p qs)
unfolding bind_from costs InPlaces
bind_from-Within find name cap' here p [] h = omega (arith, h)
bind_from-Within find name cap' here p (q ∷ qs) h = found-Within cap' (find (name q.dest)) _ (λ t e.
    then-Within (p.used + cost q) cap' (bind_one cap' p q t) (λ p'. bind_from find name cap' p' qs)
      (bind_one-Within cap' (p.used + cost q) p q t.off t.nbytes t.dtype (omega arith)
        (λ wide short.
          cost-HasRoom p q cap' (costs qs) h wide (elim (Bool-cases (is_uncounted q.dest)) [
            | inl u ↦ (let f32_lem = here q.dest t u e in cc)
            | inr u ↦ u
          ])))
      (λ p' k. bind_from-Within find name cap' here p' qs (omega (arith, k, h))))

plan-costs : (c : K3Cfg) (layer : ℕ) → costs (plan_layer true c layer) ≤ widen_bytes c
unfolding costs cost is_uncounted plan_layer norm_reqs mla_reqs kda_reqs dense_reqs moe_reqs reqw
    reqn reqw_prefix widen_bytes
plan-costs c layer = elim (Bool-cases (is_mla c layer)) [
  | inl a ↦ elim (Bool-cases (is_dense_layer c layer)) [
    | inl b ↦ elim (Bool-cases c.mla_out_gate) [
      | inl g ↦ rw (a, b, g) (omega arith)
      | inr g ↦ rw (a, b, g) (omega arith)
    ]
    | inr b ↦ elim (Bool-cases c.mla_out_gate) [
      | inl g ↦ rw (a, b, g) (omega arith)
      | inr g ↦ rw (a, b, g) (omega arith)
    ]
  ]
  | inr a ↦ elim (Bool-cases (is_dense_layer c layer)) [
    | inl b ↦ rw (a, b) (omega arith)
    | inr b ↦ rw (a, b) (omega arith)
  ]
]

-- Binding from a packed run does not fail at the end of a widen area of `k3_bind_widen_bytes` bytes, whatever the layer
-- and the run, where the run holds the weights that the count leaves out as 32-bit floats, and if it succeeds then no
-- more than that is used.
pub bind_layer_mem-Within :
    (find : List ℕ → Option PackedTensor) (name : Weight → List ℕ) (c : K3Cfg) (layer : ℕ)
    → InPlaces find name
    → Within (widen_bytes c) (bind_layer_mem find name (widen_bytes c) c layer)
unfolding bind_layer_mem
bind_layer_mem-Within find name c layer here =
    then-Within (widen_bytes c) (widen_bytes c)
      (bind_from find name (widen_bytes c) nothing_bound (plan_layer true c layer))
      (λ p. if not p.narrowed_all && not p.i8_seen then err mixed else ok p)
      (bind_from-Within find name (widen_bytes c) here nothing_bound (plan_layer true c layer)
        (omega (arith, plan-costs c layer)))
      (λ p k.
        choose-Within (widen_bytes c) (not p.narrowed_all && not p.i8_seen) (err mixed) (ok p)
          (λ _. mixed≢small) (λ _. k))
