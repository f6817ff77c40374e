-- ===== src/Kimi/Weights/Resolve/Layout.antt =====
-- Where `plan_resolve` of src/model/k3_bind.c places the tensors of a layer, and in what form.
use multi_model_llm_engine.Base.{
  ℕ, ◌+◌, ◌%◌, ◌≤◌, ◌≡◌, refl, sym, ap, ◌∙◌, subst, inl, inr, Bool, true, false, not, ◌&&◌, Option,
  some, List, [], ◌∷◌, map, ◌==◌, if◌then◌else◌, arith, Bool-cases, All,
}
use multi_model_llm_engine.Base.Int.{pos}
use multi_model_llm_engine.Io.Shards.{K3Tensor, K3Dtype, unknown, u8, bf16, f16, f32, i8r, numel_of}
use multi_model_llm_engine.Kimi.Weights.{Weight, Req}
use multi_model_llm_engine.Kimi.Weights.Resolve.{
  Bound, Resolved, align8, blob_bytes, accepts, is_bf16, resolve, bind_plan,
}

-- The tensors from `off` on lie one behind the other, each on a multiple of eight bytes, up to `size`.
unfoldable pub Placed : ℕ → ℕ → List Bound → Type 0
Placed off size [] = off ≡ size
Placed off size (b ∷ bs) =
    (off ≤ b.off) × (b.off % 8 ≡ 0) × Placed (b.off + blob_bytes b.req.take b.narrow) size bs

-- A tensor is the one of its weight's name, has the elements expected, and is stored in the form asked for: kept
-- narrow only where it is BF16, and then whole.
unfoldable pub Matches : (List ℕ → Option K3Tensor) → (Weight → List ℕ) → Bound → Type 0
Matches find name b =
    (find (name b.req.dest) ≡ some b.tensor)
    × (numel_of b.tensor.shape ≡ pos b.req.want)
    × (b.req.take ≤ b.req.want)
    × (b.narrow ≡ b.req.narrow)
    × (b.narrow ≡ true → (b.tensor.dtype ≡ bf16) × (b.req.take ≡ b.req.want))

-- A request has its tensor, of the size expected.
unfoldable pub HasTensor : (List ℕ → Option K3Tensor) → (Weight → List ℕ) → Req → Type 0
HasTensor find name q =
    (t : K3Tensor) × (find (name q.dest) ≡ some t)
    × (numel_of t.shape ≡ pos q.want)
    × (q.take ≤ q.want)

-- What is kept narrow is taken whole.
abbrev pub TakesWhole : Req → Type 0
TakesWhole q = q.narrow ≡ true → q.take ≡ q.want

pub both : (a b : Bool) → (a && b) ≡ true → (a ≡ true) × (b ≡ true)
both true b h = (refl, h)
both false b h = cc

align8-le : (off : ℕ) → (off ≤ align8 off) × (align8 off % 8 ≡ 0)
unfolding align8
align8-le off = (omega arith, omega arith)

kept : (a b : Bool) (n : ℕ) → (if a && not b then 1 else 0) + n ≡ 0 → (a && b) ≡ a
kept true true n h = refl
kept true false n h = absurd (omega (arith, h))
kept false b n h = refl

none_left : (a b : Bool) (n : ℕ) → (if a && not b then 1 else 0) + n ≡ 0 → n ≡ 0
none_left true true n h = omega (arith, h)
none_left true false n h = omega (arith, h)
none_left false b n h = omega (arith, h)

-- As the request, but for its form.
abbrev pub as_wide : Req → Req
as_wide q = record q { narrow = false }

all_widened : (qs : List Req) → All (λ q. q.narrow ≡ false) (map as_wide qs)
all_widened [] = tt
all_widened (q ∷ qs) = (refl, all_widened qs)

All-of_map :
    (P : Req → Type 0) (bs : List Bound) → All P (map (λ b. b.req) bs) → All (λ b. P b.req) bs
All-of_map P [] h = tt
All-of_map P (b ∷ bs) h = (h.0, All-of_map P bs h.1)

All-both :
    (P Q R : Bound → Type 0) (bs : List Bound)
    → ((b : Bound) → P b → Q b → R b)
    → All P bs
    → All Q bs
    → All R bs
All-both P Q R [] f h k = tt
All-both P Q R (b ∷ bs) f h k = (f b h.0 k.0, All-both P Q R bs f h.1 k.1)

module _ (find : List ℕ → Option K3Tensor) (name : Weight → List ℕ) where
  -- As `Matches`, before the layer is known to be of one form.
  MatchesSelf : Bound → Type 0
  MatchesSelf b =
      (find (name b.req.dest) ≡ some b.tensor)
      × (numel_of b.tensor.shape ≡ pos b.req.want)
      × (b.req.take ≤ b.req.want)
      × (b.narrow ≡ (b.req.narrow && is_bf16 b.tensor.dtype))
      × TakesWhole b.req

  pub accepts_whole :
      (q : Req) (t : K3Tensor) (narrow : Bool)
      → numel_of t.shape ≡ pos q.want
      → q.take ≤ q.want
      → (narrow ≡ true → q.take ≡ q.want)
      → accepts q t narrow ≡ true
  unfolding accepts
  accepts_whole q t true e h whole = let w = whole refl in rw e (ground arith)
  accepts_whole q t false e h whole = rw e (ground arith)

  Placing : ℕ → List Req → Resolved → Type 0
  Placing off qs r =
      Placed off r.size r.bound
      × All MatchesSelf r.bound
      × (map (λ b. b.req) r.bound ≡ qs)
      × (r.demoted ≡ 0 → All (λ b. b.narrow ≡ b.req.narrow) r.bound)

  -- One request in front.
  in_front : ℕ → Req → K3Tensor → Resolved → Resolved
  in_front off q t r = record {
    bound =
        record { req = q; tensor = t; off = align8 off; narrow = q.narrow && is_bf16 t.dtype }
        ∷ r.bound;
    size = r.size;
    demoted = (if q.narrow && not (is_bf16 t.dtype) then 1 else 0) + r.demoted;
  }

  resolve_step :
      (off : ℕ) (q : Req) (qs : List Req) (t : K3Tensor) (r : Resolved)
      → find (name q.dest) ≡ some t
      → accepts q t (q.narrow && is_bf16 t.dtype) ≡ true
      → resolve find name (align8 off + blob_bytes q.take (q.narrow && is_bf16 t.dtype)) qs ≡ some r
      → resolve find name off (q ∷ qs) ≡ some (in_front off q t r)
  unfolding resolve in_front
  resolve_step off q qs t r e a k = rw (resolve, e, a, k) refl

  front :
      (off : ℕ) (q : Req) (qs : List Req)
      → HasTensor find name q
      → TakesWhole q
      → ((off' : ℕ) → (r : Resolved) × (resolve find name off' qs ≡ some r) × Placing off' qs r)
      → (r : Resolved) × (resolve find name off (q ∷ qs) ≡ some r) × Placing off (q ∷ qs) r
  unfolding Placing Placed in_front HasTensor MatchesSelf
  front off q qs (t, e, n, h) whole rest =
      let (r, k, p) = rest (align8 off + blob_bytes q.take (q.narrow && is_bf16 t.dtype)) in
      (
        in_front off q t r,
        resolve_step off q qs t r e (accepts_whole q t _ n h (λ b. whole (both _ _ b).0)) k,
        (
          ((align8-le off).0, (align8-le off).1, p.0),
          ((e, n, h, refl, whole), p.1),
          ap (λ l. q ∷ l) p.2,
          λ d. (
            kept q.narrow (is_bf16 t.dtype) r.demoted d,
            p.3 (none_left q.narrow (is_bf16 t.dtype) r.demoted d),
          ),
        ),
      )

  -- A plan whose requests have their tensors is resolved.
  resolve-Placing :
      (off : ℕ) (qs : List Req)
      → All (HasTensor find name) qs
      → All TakesWhole qs
      → (r : Resolved) × (resolve find name off qs ≡ some r) × Placing off qs r
  unfolding resolve Placing Placed
  resolve-Placing off [] has whole =
      (record { bound = []; size = off; demoted = 0 }, refl, (refl, tt, refl, λ _. tt))
  resolve-Placing off (q ∷ qs) has whole =
      front off q qs has.0 whole.0 (λ off'. resolve-Placing off' qs has.1 whole.1)

  bf16_lem : (d : K3Dtype) → is_bf16 d ≡ true → d ≡ bf16
  bf16_lem bf16 h = refl
  bf16_lem unknown h = cc
  bf16_lem u8 h = cc
  bf16_lem f16 h = cc
  bf16_lem f32 h = cc
  bf16_lem i8r h = cc

  matches_lem : (b : Bound) → MatchesSelf b → b.narrow ≡ b.req.narrow → Matches find name b
  unfolding MatchesSelf Matches
  matches_lem b (e, n, h, f, whole) k =
      (e, n, h, k, λ a. let q = both _ _ (sym f ∙ a) in (bf16_lem _ q.1, whole q.0))

  zero_lem : (n : ℕ) → (n == 0) ≡ true → n ≡ 0
  zero_lem n h = ground arith

  -- The layer in one form.
  unfoldable pub IsLaid : (Bool → List Req) → Resolved × Bool → Type 0
  IsLaid plan (r, tag) =
      Placed 0 r.size r.bound
      × All (Matches find name) r.bound
      × (map (λ b. b.req) r.bound ≡ plan tag)

  as_wide-HasTensor :
      (qs : List Req) → All (HasTensor find name) qs → All (HasTensor find name) (map as_wide qs)
  unfolding HasTensor
  as_wide-HasTensor [] h = tt
  as_wide-HasTensor (q ∷ qs) h = (h.0, as_wide-HasTensor qs h.1)

  as_wide-TakesWhole : (qs : List Req) → All TakesWhole (map as_wide qs)
  as_wide-TakesWhole [] = tt
  as_wide-TakesWhole (q ∷ qs) = (λ e. cc, as_wide-TakesWhole qs)

  none_narrow : (b : Bound) → MatchesSelf b → b.req.narrow ≡ false → b.narrow ≡ b.req.narrow
  unfolding MatchesSelf
  none_narrow b (e, n, h, f, whole) k = f ∙ rw k refl

  -- A plan whose requests have their tensors is bound, in one of the two forms.
  pub bind_plan-IsLaid :
      (plan : Bool → List Req)
      → plan false ≡ map as_wide (plan true)
      → All (HasTensor find name) (plan true)
      → All TakesWhole (plan true)
      → (o : Resolved × Bool) × (bind_plan find name plan ≡ some o) × IsLaid plan o
  unfolding IsLaid bind_plan Placing
  bind_plan-IsLaid plan same has whole =
      let (r, k, p) = resolve-Placing 0 (plan true) has whole in
      let (r', k', p') =
        resolve-Placing 0 (plan false)
          (subst (All (HasTensor find name)) (sym same) (as_wide-HasTensor (plan true) has))
          (subst (All TakesWhole) (sym same) (as_wide-TakesWhole (plan true))) in
      elim (Bool-cases (r.demoted == 0)) [
        | inl e ↦ (
          (r, true),
          rw (bind_plan, k, e) refl,
          (p.0, All-both _ _ _ r.bound matches_lem p.1 (p.3 (zero_lem _ e)), p.2),
        )
        | inr e ↦ (
          (r', false),
          rw (bind_plan, k, e, k') refl,
          (
            p'.0,
            All-both _ _ _ r'.bound matches_lem p'.1 (
                All-both _ _ _ r'.bound none_narrow p'.1 (
                  All-of_map (λ q. q.narrow ≡ false) r'.bound
                    (subst (All (λ q. q.narrow ≡ false)) (sym (p'.2 ∙ same))
                      (all_widened (plan true))))),
            p'.2,
          ),
        )
      ]
