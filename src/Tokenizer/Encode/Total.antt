-- ===== src/Tokenizer/Encode/Total.antt =====
-- Where `eng_bpe_encode` of src/tokenizer/bpe.c returns ids: about a vocabulary that has every mapped byte
-- and every merged text, where no special tokens are looked for.
use multi_model_llm_engine.Base.{
  ℕ, zero, suc, ◌+◌, ◌-◌, ◌*◌, ◌<◌, ◌≤◌, ◌≡◌, ◌⊎◌, refl, sym, ap, ◌∙◌, subst, true, false, Option,
  none, some, is_some, Option-cases, Bool-cases, inl, inr, List, [], ◌∷◌, ◌++◌, length, take, drop,
  length-take, length-drop, arith, All, ltb, take-append-drop,
}
use multi_model_llm_engine.Tokenizer.Bytes.{mapped, map_bytes, utf8, code_point}
use multi_model_llm_engine.Tokenizer.Split.{next_fragment}
use multi_model_llm_engine.Tokenizer.Split.Progress.{next_fragment_progress}
use multi_model_llm_engine.Tokenizer.State.{EngBpe, lookup, lookup_if}
use multi_model_llm_engine.Tokenizer.Merge.{
  Sym, text_at, better, best_pair, join_at, merge_fragment, merge_loop, emit,
}
use multi_model_llm_engine.Tokenizer.Merge.Tiles.{Tiles}
use multi_model_llm_engine.Tokenizer.Encode.{
  fill, encode_fragment, fragment_length, encode_loop, encode,
}
use multi_model_llm_engine.Tokenizer.Encode.Filled.{fill-Tiles, singles, append-nil}
use multi_model_llm_engine.Tokenizer.Encode.RoundTrip.{encode_loop-step, All-append}

none≢some : {A : Type 0} {a : A} → none ≡ some a → ⊥
none≢some e = cc

false≢true : false ≡ true → ⊥
false≢true e = cc

-- The vocabulary has each byte, and whatever a merge can make.
pub record IsComplete (b : EngBpe) : Type 0 where
  pub bytes : (c : ℕ) → c < 256 → is_some (lookup b.vocab (mapped c)) ≡ true
  pub merges :
      (s : List ℕ) (r : ℕ) → lookup_if b.merge s ≡ some r → is_some (lookup b.vocab s) ≡ true

abbrev Known : EngBpe → List ℕ → List Sym → Type 0
Known b buf ys = All (λ y. is_some (lookup b.vocab (text_at buf y.off y.len)) ≡ true) ys

-- The pair at a place makes a text that the vocabulary has.
abbrev PairKnown : EngBpe → List ℕ → ℕ → List Sym → Type 0
PairKnown b buf i [] = ⊥
PairKnown b buf i (x ∷ []) = ⊥
PairKnown b buf zero (x ∷ y ∷ ys) =
    is_some (lookup b.vocab (text_at buf x.off (x.len + y.len))) ≡ true
PairKnown b buf (suc i) (x ∷ y ∷ ys) = PairKnown b buf i (y ∷ ys)

better-cases :
    (best : Option (ℕ × ℕ)) (i : ℕ) (o : Option ℕ)
    → (better best i o ≡ best) ⊎ ((r : ℕ) × ((o ≡ some r) × (better best i o ≡ some (i, r))))
unfolding better
better-cases best i none = inl refl
better-cases none i (some r) = inr (r, (refl, refl))
better-cases (some (j, q)) i (some r) = elim (Bool-cases (ltb r q)) [
  | inl e ↦ inr (r, (refl, rw e refl))
  | inr e ↦ inl (rw e refl)
]

pair_of : ℕ → ℕ → Option (ℕ × ℕ)
pair_of i q = some (i, q)

place : (i q j r : ℕ) → pair_of i q ≡ pair_of j r → j ≡ i + 0
unfolding pair_of
place i q j r e = ground (arith, e)

best_pair-known :
    (b : EngBpe) (buf : List ℕ) (i : ℕ) (ys : List Sym) (best : Option (ℕ × ℕ)) (j r : ℕ)
    → IsComplete b
    → best_pair b buf i ys best ≡ some (j, r)
    → (best ≡ some (j, r)) ⊎ ((d : ℕ) × ((j ≡ i + d) × PairKnown b buf d ys))
unfolding best_pair pair_of
best_pair-known b buf i [] best j r ok h = inl h
best_pair-known b buf i (x ∷ []) best j r ok h = inl h
best_pair-known b buf i (x ∷ y ∷ ys) best j r ok h =
    let o = lookup_if b.merge (text_at buf x.off (x.len + y.len)) in
    elim (best_pair-known b buf (suc i) (y ∷ ys) (better best i o) j r ok h) [
      | inr (d, (e, k)) ↦ inr (suc d, (omega arith, k))
      | inl e ↦ elim (better-cases best i o) [
        | inl same ↦ inl (sym same ∙ e)
        | inr (q, (found, new)) ↦ inr (
          0,
          (place i q j r (sym new ∙ e), ok.merges (text_at buf x.off (x.len + y.len)) q found),
        )
      ]
    ]

join_at-Known :
    (b : EngBpe) (buf : List ℕ) (i : ℕ) (ys : List Sym)
    → PairKnown b buf i ys
    → Known b buf ys
    → Known b buf (join_at i ys)
unfolding join_at
join_at-Known b buf i [] p k = k
join_at-Known b buf i (x ∷ []) p k = k
join_at-Known b buf zero (x ∷ y ∷ ys) p (k, (k', ks)) = (p, ks)
join_at-Known b buf (suc i) (x ∷ y ∷ ys) p (k, ks) = (k, join_at-Known b buf i (y ∷ ys) p ks)

join_at-le : (i : ℕ) (ys : List Sym) → length (join_at i ys) ≤ length ys
unfolding join_at
join_at-le i [] = omega arith
join_at-le i (x ∷ []) = omega arith
join_at-le zero (x ∷ y ∷ ys) = omega arith
join_at-le (suc i) (x ∷ y ∷ ys) = omega (arith, join_at-le i (y ∷ ys))

merge_loop-Known :
    (fuel : ℕ) (b : EngBpe) (buf : List ℕ) (ys : List Sym)
    → IsComplete b
    → Known b buf ys
    → Known b buf (merge_loop fuel b buf ys) × (length (merge_loop fuel b buf ys) ≤ length ys)
unfolding merge_loop
merge_loop-Known zero b buf ys ok k = (k, omega arith)
merge_loop-Known (suc fuel) b buf ys ok k = elim (Option-cases (best_pair b buf 0 ys none)) [
  | inl o ↦ rw (merge_loop, o) (k, omega arith)
  | inr ((i, r), o) ↦ elim (best_pair-known b buf 0 ys none i r ok o) [
    | inl e ↦ absurd (none≢some e)
    | inr (d, (e, p)) ↦
        let here : PairKnown b buf i ys = subst (λ v. PairKnown b buf v ys) (omega (arith, e)) p in
        let (k', l) =
          merge_loop-Known fuel b buf (join_at i ys) ok (join_at-Known b buf i ys here k) in
        rw (merge_loop, o) (k', omega (arith, l, join_at-le i ys))
  ]
]

emit-Known :
    (b : EngBpe) (buf : List ℕ) (ys : List Sym) (room : ℕ)
    → Known b buf ys
    → length ys ≤ room
    → (ids : List ℕ) × ((emit b buf ys room ≡ some ids) × (length ids ≡ length ys))
unfolding emit
emit-Known b buf [] room k l = ([], (refl, refl))
emit-Known b buf (y ∷ ys) zero k l = absurd (omega arith)
emit-Known b buf (y ∷ ys) (suc room) (k, ks) l =
    elim (Option-cases (lookup b.vocab (text_at buf y.off y.len))) [
      | inl o ↦ absurd (false≢true (rw o at k))
      | inr (id, o) ↦
          let (ids, (e, n)) = emit-Known b buf ys room ks (omega arith) in
          (id ∷ ids, (rw (emit, o, e) refl, omega arith))
    ]

mapped_short : (c : ℕ) → length (mapped c) ≤ 2
unfolding mapped utf8
mapped_short c = elim (Bool-cases (ltb (code_point c) 0x80)) [
  | inl e ↦ rw (mapped, utf8, e) (omega arith)
  | inr e ↦ rw (mapped, utf8, e) (omega arith)
]

fill-some :
    (w : ℕ) (cs : List ℕ)
    → w + 2 * length cs ≤ 4096
    → (v : List ℕ × List Sym) × ((fill w cs ≡ some v) × (length v.1 ≡ length cs))
unfolding fill
fill-some w [] h = (([], []), (refl, refl))
fill-some w (c ∷ cs) h =
    let short = mapped_short c in
    let (v, (e, n)) = fill-some (w + length (mapped c)) cs (omega (arith, short)) in
    let fits : ltb 4096 (w + length (mapped c)) ≡ false = ground (arith, short) in
    (
      (mapped c ++ v.0, record { off = w; len = length (mapped c) } ∷ v.1),
      (rw (fill, fits, e) refl, omega (arith, n)),
    )

-- The pieces that a fragment starts with are bytes.
singles-Known :
    (b : EngBpe) (buf : List ℕ) (off : ℕ) (ys : List Sym) (cs : List ℕ)
    → IsComplete b
    → All (λ c. c < 256) cs
    → Tiles buf off ys (singles cs)
    → Known b buf ys
unfolding map_bytes
singles-Known b buf off [] cs ok a t = tt
singles-Known b buf off (y ∷ ys) [] ok a t = absurd t
singles-Known b buf off (y ∷ ys) (c ∷ cs) ok (l, a) (e, (n, (t, ts))) =
    let text : text_at buf y.off y.len ≡ mapped c =
      ap (λ o. text_at buf o y.len) e ∙ t ∙ append-nil (mapped c) in
    (
      subst (λ s. is_some (lookup b.vocab s) ≡ true) (sym text) (ok.bytes c l),
      singles-Known b buf (off + y.len) ys cs ok a ts,
    )

encode_fragment-some :
    (b : EngBpe) (fragment : List ℕ) (room : ℕ)
    → IsComplete b
    → All (λ c. c < 256) fragment
    → length fragment ≤ 1024
    → length fragment ≤ room
    → (ids : List ℕ) × ((encode_fragment b fragment room ≡ some ids)
        × (length ids ≤ length fragment))
unfolding encode_fragment merge_fragment
encode_fragment-some b fragment room ok a short l =
    let fits : ltb 1024 (length fragment) ≡ false = ground arith in
    let ((buf, ys), (e, n)) = fill-some 0 fragment (omega arith) in
    let known = singles-Known b buf 0 ys fragment ok a (fill-Tiles [] fragment buf ys e) in
    let (known', m) = merge_loop-Known (length ys) b buf ys ok known in
    let (ids, (f, k)) =
      emit-Known b buf (merge_loop (length ys) b buf ys) room known' (omega (arith, m, n)) in
    (ids, (rw (encode_fragment, fits, e, merge_fragment, f) refl, omega (arith, k, m, n)))

encode_loop-some :
    (fuel : ℕ) (b : EngBpe) (text : List ℕ) (room : ℕ)
    → IsComplete b
    → All (λ c. c < 256) text
    → length text ≤ 1024
    → length text ≤ room
    → length text ≤ fuel
    → (ids : List ℕ) × (encode_loop fuel b false text room ≡ some ids)
unfolding encode_loop fragment_length
encode_loop-some zero b [] room ok a short l f = ([], refl)
encode_loop-some (suc fuel) b [] room ok a short l f = ([], refl)
encode_loop-some zero b (c ∷ text) room ok a short l f = absurd (omega arith)
encode_loop-some (suc fuel) b (c ∷ text) room ok a short l f =
    let flen = next_fragment c text in
    let (some_bytes, at_most) = next_fragment_progress c text in
    let (a₁, a₂) =
      All-append _ (take flen (c ∷ text)) (drop flen (c ∷ text))
        (subst (All _) (sym (take-append-drop flen (c ∷ text))) a) in
    let taken = length-take flen (c ∷ text) in
    let left = length-drop flen (c ∷ text) in
    let (first, (e, n)) =
      encode_fragment-some b (take flen (c ∷ text)) room ok a₁ (omega (arith, taken))
        (omega (arith, taken)) in
    let (rest, e') =
      encode_loop-some fuel b (drop flen (c ∷ text)) (room - length first) ok a₂
        (omega (arith, left)) (omega (arith, left, n, taken, at_most))
        (omega (arith, left, some_bytes)) in
    (first ++ rest, encode_loop-step fuel b c text room ∙ rw (e, e') refl)

-- If the vocabulary has each mapped byte, and each text to which the merge table gives a rank, then
-- `eng_bpe_encode`, where no special tokens are looked for, returns ids for each text of at most 1024 bytes
-- when there is room for one id for each byte.
pub encode-returns :
    (b : EngBpe) (text : List ℕ) (cap : ℕ)
    → IsComplete b
    → All (λ c. c < 256) text
    → length text ≤ 1024
    → length text ≤ cap
    → (ids : List ℕ) × (encode b text cap false ≡ some ids)
unfolding encode
encode-returns b text cap ok a short l =
    encode_loop-some (length text) b text cap ok a short l (omega arith)
