-- ===== src/Formats/Gguf/Extents.antt =====
-- Where the tensors of a header lie that `parse_header` of src/formats/gguf.c accepts.
use multi_model_llm_engine.Base.{
  ℕ, zero, suc, ◌+◌, ◌-◌, ◌*◌, ◌/◌, ◌%◌, ◌≤◌, ◌<◌, ◌≡◌, refl, Bool, true, false, not, ◌||◌, Option,
  none, some, List, [], ◌∷◌, ltb, ◌==◌, if◌then◌else◌, length, drop, arith, sym, subst, ◌∙◌, All,
}
use native.Mathlib.Nat.{mod-lt, div-add-mod', mul-mod_left}
use multi_model_llm_engine.Base.Int.{
  ℤ, pos, pos_part, ltb_ℤ, ◌≤ℤ◌, ◌+ℤ◌, not_ltb_ℤ→le, FitsI64, add_i64, to_i64_fits,
}
use multi_model_llm_engine.Tensor.Dtype.{DType}
use multi_model_llm_engine.Tensor.Shape.{tensor_nbytes}
use multi_model_llm_engine.Formats.Gguf.Cursor.{
  ok, malformed, Cur, pure, reject, ◌>>=◌, require, rd, rd_str,
}
use multi_model_llm_engine.Formats.Gguf.Ends.{
  Ends, Yields, then_any, then-Ends, then_position, if_Ends, bind-Yields, bind_any, pure-Yields,
  reject-Yields, require-Yields, ends_ok,
}
use multi_model_llm_engine.Formats.Gguf.Types.{GgufKv, GgufTensor, Header, gguf_dtype, same_text}
use multi_model_llm_engine.Formats.Gguf.Metadata.{pooled, parse_kvs}
use multi_model_llm_engine.Formats.Gguf.Header.{
  place_tensors, alignment_key, read_shape, dims_ok, is_invalid, size_of, counts_ok, parse_tensor,
  parse_tensors, alignment_of, is_power_of_two, data_start_of, finish, parse_counted, has_magic,
  pool_room, parse_with, parse_header,
}

-- Where a tensor is, in a file whose data begins at `start` and needs `bytes`.
abbrev pub LiesIn : ℕ → ℤ → ℤ → GgufTensor → Type 0
LiesIn start file_size bytes t =
    (t.file_off ≡ pos start +ℤ t.rel_off)
    × ((t.file_off +ℤ t.nbytes ≤ℤ file_size) × (t.rel_off +ℤ t.nbytes ≤ℤ bytes))

-- The sums that place a tensor are values of `int64_t`.
abbrev pub DoesFit : ℕ → GgufTensor → Type 0
DoesFit start t =
    FitsI64 (pos start +ℤ t.rel_off)
    × (FitsI64 (pos start +ℤ t.rel_off +ℤ t.nbytes) × FitsI64 (t.rel_off +ℤ t.nbytes))

-- What 64-bit arithmetic says of the place.
abbrev LiesRound : ℕ → ℤ → ℤ → GgufTensor → Type 0
LiesRound start file_size bytes t =
    (t.file_off ≡ add_i64 (pos start) t.rel_off)
    × ((add_i64 t.file_off t.nbytes ≤ℤ file_size) × (add_i64 t.rel_off t.nbytes ≤ℤ bytes))

lies_lem :
    (start : ℕ) (file_size bytes : ℤ) (t : GgufTensor)
    → LiesRound start file_size bytes t
    → DoesFit start t
    → LiesIn start file_size bytes t
unfolding add_i64
lies_lem start file_size bytes t (at, (within, inside)) (f, (g, h)) =
    let e : t.file_off ≡ pos start +ℤ t.rel_off = at ∙ to_i64_fits _ f in
    let sum : add_i64 t.file_off t.nbytes ≡ t.file_off +ℤ t.nbytes =
      to_i64_fits (t.file_off +ℤ t.nbytes) (subst (λ o. FitsI64 (o +ℤ t.nbytes)) (sym e) g) in
    (
      e,
      (
        subst (λ x. x ≤ℤ file_size) sum within,
        subst (λ x. x ≤ℤ bytes) (to_i64_fits (t.rel_off +ℤ t.nbytes) h) inside,
      ),
    )

abbrev wider : ℤ → ℤ → ℤ
wider a b = if ltb_ℤ a b then b else a

wider_le : (a b c : ℤ) → wider a b ≤ℤ c → (a ≤ℤ c) × (b ≤ℤ c)
wider_le a b c h = ground arith

-- What a step of `place_tensors` returns, from the test and the rest.
abbrev placed_step : Bool → Option (List GgufTensor × ℤ) → GgufTensor → Option (List GgufTensor × ℤ)
placed_step b o t =
    if b then none else elim o [ none ↦ none | some (placed, bytes) ↦ some (t ∷ placed, bytes) ]

placed_step-some :
    (b : Bool) (o : Option (List GgufTensor × ℤ)) (t : GgufTensor) (placed : List GgufTensor)
    (bytes : ℤ)
    → placed_step b o t ≡ some (placed, bytes)
    → (b ≡ false)
      × ((placed' : List GgufTensor) × ((o ≡ some (placed', bytes)) × (placed ≡ t ∷ placed')))
placed_step-some true o t placed bytes h = cc
placed_step-some false none t placed bytes h = cc
placed_step-some false (some (pl, by)) t placed bytes h = (refl, (pl, (cc, cc)))

place_lem :
    (start : ℕ) (file_size : ℤ) (ts : List GgufTensor) (acc : ℤ) (placed : List GgufTensor)
    (bytes : ℤ)
    → All (λ t. pos 0 ≤ℤ t.nbytes) ts
    → place_tensors start file_size ts acc ≡ some (placed, bytes)
    → (acc ≤ℤ bytes) × All (λ t. (pos 0 ≤ℤ t.nbytes) × LiesRound start file_size bytes t) placed
unfolding place_tensors
place_lem start file_size [] acc placed bytes a h =
    let e : [] ≡ placed = cc in let f : acc ≡ bytes = cc in (ground (arith, f), subst (All _) e tt)
place_lem start file_size (t ∷ ts) acc placed bytes (n, a) h =
    let (fits, (placed', (e, f))) =
      placed_step-some (ltb_ℤ file_size (add_i64 (add_i64 (pos start) t.rel_off) t.nbytes))
        (place_tensors start file_size ts (wider acc (add_i64 t.rel_off t.nbytes)))
        (record t { file_off = add_i64 (pos start) t.rel_off }) placed bytes h in
    let (up, all) =
      place_lem start file_size ts (wider acc (add_i64 t.rel_off t.nbytes)) placed' bytes a e in
    let (u, v) = wider_le acc (add_i64 t.rel_off t.nbytes) bytes up in
    (
      u,
      subst (All _) (sym f) (
        (
          n,
          (
            refl,
            (not_ltb_ℤ→le file_size (add_i64 (add_i64 (pos start) t.rel_off) t.nbytes) fits, v),
          ),
        ),
        all,
      ),
    )

abbrev IsSized : GgufTensor → Type 0
IsSized t = pos 0 ≤ℤ t.nbytes

size_of_sized : (d : DType) (shape : List ℤ) → Yields (λ n. pos 0 ≤ℤ n) (size_of d shape)
unfolding size_of
size_of_sized d shape = of_size (tensor_nbytes d shape)
  where
    of_size :
        (o : Option ℤ)
        → Yields {A = ℤ}
            (λ n. pos 0 ≤ℤ n)
            (elim o [ none ↦ reject | some n ↦ require (not (ltb_ℤ n (pos 0))) >>= λ u. pure n ])
    of_size none = reject-Yields _
    of_size (some n) =
        bind-Yields _ _ _ _ (require-Yields (not (ltb_ℤ n (pos 0))))
          (λ u h. pure-Yields _ n (ground (arith, h)))

parse_tensor-IsSized :
    (room : ℕ → Bool) (used : ℕ)
    → Yields (λ (x : GgufTensor × ℕ). IsSized x.0) (parse_tensor room used)
unfolding parse_tensor
parse_tensor-IsSized room used = bind_any _ rd_str _ (λ name.
    bind_any _ (require (room (pooled used name))) _ (λ u. bind_any _ (rd 4) _ (λ n.
      bind_any _ (require (dims_ok n)) _ (λ u. bind_any _ (read_shape n) _ (λ shape.
        bind_any _ (rd 4) _ (λ t. bind_any _ (rd 8) _ (λ off.
          bind_any _ (require (not (is_invalid (gguf_dtype t)))) _ (λ u.
            bind-Yields _ _ _ _ (size_of_sized (gguf_dtype t) shape)
              (λ n h. pure-Yields _ _ h)))))))))

parse_tensors-IsSized :
    (room : ℕ → Bool) (n used : ℕ) → Yields (λ x. All IsSized x.0) (parse_tensors room n used)
unfolding parse_tensors
parse_tensors-IsSized room zero used = pure-Yields _ _ tt
parse_tensors-IsSized room (suc n) used =
    bind-Yields _ _ _ _ (parse_tensor-IsSized room used) (λ a h.
      bind-Yields _ _ _ _ (parse_tensors-IsSized room n a.1) (λ b g. pure-Yields _ _ (h, g)))

-- What a parsed header promises when the cursor stands behind it, by where its tensors lie.
abbrev ExtentsBy : (ℕ → ℤ → ℤ → GgufTensor → Type 0) → ℤ → Header → Cur → Type 0
ExtentsBy Lies file_size h c =
    All (λ t. (pos 0 ≤ℤ t.nbytes) × Lies h.data_start file_size h.data_bytes t) h.tensors
    × ((c.at ≤ h.data_start)
        × ((h.data_start < c.at + h.alignment) × (h.data_start % h.alignment ≡ 0)))

abbrev pub Extents : ℤ → Header → Cur → Type 0
Extents file_size h c = ExtentsBy LiesIn file_size h c

abbrev Rounded : ℤ → Header → Cur → Type 0
Rounded file_size h c = ExtentsBy LiesRound file_size h c

alignment_pos : (ks : List GgufKv) → 0 < alignment_of ks
unfolding alignment_of
alignment_pos [] = omega arith
alignment_pos (k ∷ ks) =
    of_test (same_text k.key alignment_key) (alignment_of ks) (alignment_pos ks)
  where
    of_test :
        (b : Bool) (n : ℕ)
        → 0 < n
        → 0 < (if b then (if ltb_ℤ (pos 0) k.i then pos_part k.i else 32) else n)
    of_test true n h = ground arith
    of_test false n h = h

data_start_lem :
    (hdr_end a : ℕ)
    → 0 < a
    → (hdr_end ≤ data_start_of hdr_end a)
      × ((data_start_of hdr_end a < hdr_end + a) × (data_start_of hdr_end a % a ≡ 0))
unfolding data_start_of
data_start_lem hdr_end a h =
    let x = hdr_end + a - 1 in
    let part = div-add-mod' x a in
    let low = mod-lt x h in
    let e : x - x % a ≡ x / a * a = omega (arith, part) in
    (omega (arith, part, low), (omega (arith, part, low), rw e (mul-mod_left (x / a) a)))

finish-Rounded :
    (file_size : ℤ) (version : ℕ) (kvs : List GgufKv) (ts : List GgufTensor) (c : Cur)
    → All IsSized ts
    → Ends (Rounded file_size) (finish file_size version kvs ts c.at c)
unfolding finish
finish-Rounded file_size version kvs ts c a =
    let start = data_start_of c.at (alignment_of kvs) in
    of_placed (is_power_of_two (alignment_of kvs)) (place_tensors start file_size ts (pos 0)) refl
  where
    header : List GgufTensor × ℤ → Header
    header x = record {
      version = version;
      kv = kvs;
      tensors = x.0;
      alignment = alignment_of kvs;
      data_start = data_start_of c.at (alignment_of kvs);
      data_bytes = x.1;
    }

    of_placed :
        (b : Bool) (o : Option (List GgufTensor × ℤ))
        → place_tensors (data_start_of c.at (alignment_of kvs)) file_size ts (pos 0) ≡ o
        → Ends {A = Header}
            (Rounded file_size)
            (if not b then malformed else elim o [ none ↦ malformed | some x ↦ ok (header x, c) ])
    of_placed false o e = tt
    of_placed true none e = tt
    of_placed true (some (placed, bytes)) e = (
      (place_lem _ file_size ts (pos 0) placed bytes a e).1,
      data_start_lem c.at (alignment_of kvs) (alignment_pos kvs),
    )

parse_counted-Rounded :
    (room : ℕ → ℕ → Bool) (file_size : ℤ) (c : Cur)
    → Ends (Rounded file_size) (parse_counted room file_size c)
unfolding parse_counted
parse_counted-Rounded room file_size c =
    let Q = Rounded file_size in
    then_any Q (rd 4 c) _ (λ version c.
      then_any Q (require (version == 2 || version == 3) c) _ (λ u c. then_any Q (rd 8 c) _ (λ nt c.
        then_any Q (rd 8 c) _ (λ nk c. then_any Q (require (counts_ok nt nk) c) _ (λ u c.
          then_any Q (parse_kvs (room (nk + nt)) nk 0 c) _ (λ a c.
            then-Ends (λ b c. All IsSized b.0) Q (parse_tensors (room (nk + nt)) nt a.1 c) _
              ((parse_tensors-IsSized (room (nk + nt)) nt a.1).holds c)
              (λ b c sized.
                then_position Q c (finish file_size version a.0 b.0)
                  (finish-Rounded file_size version a.0 b.0 c sized))))))))

fit_all :
    (start : ℕ) (file_size bytes : ℤ) (ts : List GgufTensor)
    → All (λ t. (pos 0 ≤ℤ t.nbytes) × LiesRound start file_size bytes t) ts
    → All (DoesFit start) ts
    → All (λ t. (pos 0 ≤ℤ t.nbytes) × LiesIn start file_size bytes t) ts
fit_all start file_size bytes [] h k = tt
fit_all start file_size bytes (t ∷ ts) ((n, l), h) (f, k) =
    ((n, lies_lem start file_size bytes t l f), fit_all start file_size bytes ts h k)

-- If the sums that place its tensors do not overflow, each tensor of a header that `parse_header` accepts has a size
-- that is not negative, lies at its offset from the start of the data, which may be negative, and ends within the file
-- and within the data; and the data start at the first multiple of the alignment that is not before the end of the
-- header.
pub parse_header-Extents :
    (file_size : ℤ) (blob : List ℕ) (h : Header) (c : Cur)
    → parse_header file_size blob ≡ ok (h, c)
    → All (DoesFit h.data_start) h.tensors
    → Extents file_size h c
unfolding parse_header parse_with
parse_header-Extents file_size blob h c e fits =
    let (all, start) =
      ends_ok (Rounded file_size)
        (if_Ends (Rounded file_size) (ltb (length blob) 24) _ _ tt (
          if_Ends (Rounded file_size) (not (has_magic blob)) _ _ tt (
            parse_counted-Rounded (pool_room (length blob)) file_size
              (record { at = 4; rest = drop 4 blob }))))
        e in
    (fit_all h.data_start file_size h.data_bytes h.tensors all fits, start)
