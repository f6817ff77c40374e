-- ===== src/Tokenizer/Encode/RoundTrip.antt =====
-- `eng_bpe_encode` and then `eng_bpe_decode` of src/tokenizer/bpe.c, where no special tokens are looked for.
use multi_model_llm_engine.Base.{
  ℕ, zero, suc, ◌-◌, ◌<◌, ◌≤◌, ◌≡◌, refl, sym, ap, ◌∙◌, subst, false, none, some, Option-cases,
  Bool-cases, inl, inr, List, [], ◌∷◌, ◌++◌, length, take, drop, length-append, arith, All,
  take-append-drop, ltb,
}
use multi_model_llm_engine.Tokenizer.Bytes.{mapped, map_bytes, decode_text, utf8, code_point}
use multi_model_llm_engine.Tokenizer.Bytes.Inverse.{decode_text-map_bytes}
use multi_model_llm_engine.Tokenizer.State.{EngBpe, decode, decode_one}
use multi_model_llm_engine.Tokenizer.Merge.{merge_fragment, merge_loop}
use multi_model_llm_engine.Tokenizer.Merge.Tiles.{flat, merge_loop-Tiles}
use multi_model_llm_engine.Tokenizer.Encode.{
  fill, encode_fragment, fragment_length, prepend, special_in, encode_loop, encode,
}
use multi_model_llm_engine.Tokenizer.Encode.Spelt.{
  IsLoaded, Spells, emit-Spells, some_injective, none≢some,
}
use multi_model_llm_engine.Tokenizer.Encode.Filled.{fill-Tiles, singles, flat-singles, append_assoc}

-- A text that is spelt by ids: they stand for groups of bytes that make it up.
abbrev Spelt : EngBpe → List ℕ → List ℕ → Type 0
Spelt b ids text = (gs : List (List ℕ)) × (Spells b ids gs × (flat gs ≡ text))

encode_fragment-Spelt :
    (b : EngBpe) (fragment : List ℕ) (room : ℕ) (ids : List ℕ)
    → IsLoaded b
    → encode_fragment b fragment room ≡ some ids
    → Spelt b ids fragment
unfolding encode_fragment merge_fragment
encode_fragment-Spelt b fragment room ids loaded h =
    elim (Bool-cases (ltb 1024 (length fragment))) [
      | inl e ↦ absurd (none≢some (rw (encode_fragment, e) at h))
      | inr e ↦ elim (Option-cases (fill 0 fragment)) [
        | inl o ↦ absurd (none≢some (rw (encode_fragment, e, o) at h))
        | inr ((buf, ys), o) ↦
            let (gs, (t, f)) =
              merge_loop-Tiles (length ys) b buf ys (singles fragment)
                (fill-Tiles [] fragment buf ys o) in
            (
              gs,
              (
                emit-Spells b buf 0 (merge_loop (length ys) b buf ys) gs room ids loaded t
                    (rw (encode_fragment, e, o) at h),
                f ∙ flat-singles fragment,
              ),
            )
      ]
    ]

Spells-append :
    (b : EngBpe) (ids ids' : List ℕ) (gs gs' : List (List ℕ))
    → Spells b ids gs
    → Spells b ids' gs'
    → Spells b (ids ++ ids') (gs ++ gs')
unfolding Spells
Spells-append b [] ids' [] gs' h h' = h'
Spells-append b [] ids' (g ∷ gs) gs' h h' = absurd h
Spells-append b (id ∷ ids) ids' [] gs' h h' = absurd h
Spells-append b (id ∷ ids) ids' (g ∷ gs) gs' (t, h) h' = (t, Spells-append b ids ids' gs gs' h h')

flat-append : (gs gs' : List (List ℕ)) → flat (gs ++ gs') ≡ flat gs ++ flat gs'
unfolding flat
flat-append [] gs' = refl
flat-append (g ∷ gs) gs' =
    ap (λ l. g ++ l) (flat-append gs gs') ∙ sym (append_assoc g (flat gs) (flat gs'))

Spelt-append :
    (b : EngBpe) (ids ids' text text' : List ℕ)
    → Spelt b ids text
    → Spelt b ids' text'
    → Spelt b (ids ++ ids') (text ++ text')
Spelt-append b ids ids' text text' (gs, (h, e)) (gs', (h', e')) = (
  gs ++ gs',
  (
    Spells-append b ids ids' gs gs' h h',
    flat-append gs gs' ∙ ap (λ l. l ++ flat gs') e ∙ ap (λ l. text ++ l) e',
  ),
)

no_special : (b : EngBpe) (text : List ℕ) → special_in b false text ≡ none
unfolding special_in
no_special b text = refl

-- A round without special tokens.
pub encode_loop-step :
    (fuel : ℕ) (b : EngBpe) (c : ℕ) (text : List ℕ) (room : ℕ)
    → encode_loop (suc fuel) b false (c ∷ text) room
      ≡ elim (encode_fragment b (take (fragment_length none c text) (c ∷ text)) room) [
        | none ↦ none
        | some ids ↦ prepend ids (
            encode_loop fuel b false
              (drop (fragment_length none c text) (c ∷ text))
              (room - length ids))
      ]
unfolding encode_loop special_in
encode_loop-step fuel b c text room = refl

encode_loop-Spelt :
    (fuel : ℕ) (b : EngBpe) (text : List ℕ) (room : ℕ) (ids : List ℕ)
    → IsLoaded b
    → encode_loop fuel b false text room ≡ some ids
    → Spelt b ids text
unfolding encode_loop Spells flat
encode_loop-Spelt zero b [] room ids loaded h =
    ([], (subst (λ v. Spells b v []) (some_injective h) tt, refl))
encode_loop-Spelt (suc fuel) b [] room ids loaded h =
    ([], (subst (λ v. Spells b v []) (some_injective h) tt, refl))
encode_loop-Spelt zero b (c ∷ text) room ids loaded h = absurd (none≢some h)
encode_loop-Spelt (suc fuel) b (c ∷ text) room ids loaded h =
    let flen = fragment_length none c text in
    let step = sym (encode_loop-step fuel b c text room) ∙ h in
    elim (Option-cases (encode_fragment b (take flen (c ∷ text)) room)) [
      | inl o ↦ absurd (none≢some (rw o at step))
      | inr (first, o) ↦
          elim (Option-cases
            (encode_loop fuel b false (drop flen (c ∷ text)) (room - length first))) [
              | inl o' ↦ absurd (none≢some (rw (o, o') at step))
              | inr (rest, o') ↦
                  let whole : first ++ rest ≡ ids = some_injective (rw (o, o') at step) in
                  let spelt =
                    Spelt-append b first rest (take flen (c ∷ text)) (drop flen (c ∷ text))
                      (encode_fragment-Spelt b (take flen (c ∷ text)) room first loaded o)
                      (encode_loop-Spelt fuel b (drop flen (c ∷ text)) (room - length first) rest
                        loaded o') in
                  subst (λ v. Spelt b ids v) (take-append-drop flen (c ∷ text))
                    (subst (λ v. Spelt b v (take flen (c ∷ text) ++ drop flen (c ∷ text))) whole
                      spelt)
            ]
    ]

mapped_long : (c : ℕ) → c < 256 → 1 ≤ length (mapped c)
unfolding mapped utf8
mapped_long c l = elim (Bool-cases (ltb (code_point c) 0x80)) [
  | inl e ↦ rw (mapped, utf8, e) (omega arith)
  | inr e ↦ rw (mapped, utf8, e) (omega arith)
]

map_bytes_long : (g : List ℕ) → All (λ c. c < 256) g → length g ≤ length (map_bytes g)
unfolding map_bytes
map_bytes_long [] a = omega arith
map_bytes_long (c ∷ g) (l, a) =
    omega (arith, mapped_long c l, map_bytes_long g a, length-append (mapped c) (map_bytes g))

pub All-append : (P : ℕ → Type 0) (xs ys : List ℕ) → All P (xs ++ ys) → All P xs × All P ys
All-append P [] ys a = (tt, a)
All-append P (x ∷ xs) ys (p, a) = let (b, c) = All-append P xs ys a in ((p, b), c)

decode-Spells :
    (b : EngBpe) (ids : List ℕ) (gs : List (List ℕ)) (cap : ℕ)
    → Spells b ids gs
    → All (λ c. c < 256) (flat gs)
    → length (flat gs) ≤ cap
    → decode b ids cap ≡ some (flat gs)
unfolding decode decode_one Spells flat
decode-Spells b [] [] cap h a l = refl
decode-Spells b [] (g ∷ gs) cap h a l = absurd h
decode-Spells b (id ∷ ids) [] cap h a l = absurd h
decode-Spells b (id ∷ ids) (g ∷ gs) cap (t, h) a l =
    let (a₁, a₂) = All-append _ g (flat gs) a in
    let long = length-append g (flat gs) in
    let one : decode_text (length (map_bytes g)) (map_bytes g) cap ≡ some g =
      decode_text-map_bytes g (length (map_bytes g)) cap a₁ (map_bytes_long g a₁)
        (omega (arith, l, long)) in
    rw
      (
        decode,
        decode_one,
        t,
        one,
        decode-Spells b ids gs (cap - length g) h a₂ (omega (arith, l, long)),
      )
      refl

-- If `eng_bpe_encode` returns ids for a text in which no special tokens are looked for, and the vocabulary
-- is the map that was made of at most 2^29 tokens, then `eng_bpe_decode` of these ids gives the text, in
-- any buffer that has room for it.
pub encode-decode :
    (b : EngBpe) (text ids : List ℕ) (cap cap' : ℕ)
    → IsLoaded b
    → All (λ c. c < 256) text
    → length text ≤ cap'
    → encode b text cap false ≡ some ids
    → decode b ids cap' ≡ some text
unfolding encode
encode-decode b text ids cap cap' loaded a l h =
    let (gs, (spells, e)) = encode_loop-Spelt (length text) b text cap ids loaded h in
    decode-Spells b ids gs cap' spells (subst (All _) (sym e) a) (omega (arith, l, ap length e))
    ∙ ap some e
