-- ===== src/Tokenizer/Chat/Room.antt =====
-- The prompts of src/tokenizer/chat.c stay inside the caller's buffer.
use multi_model_llm_engine.Base.{
  ℕ, zero, suc, ◌+◌, ◌-◌, ◌≤◌, ◌≡◌, ap, refl, arith, Bool, false, Option, none, some, List, [], ◌∷◌,
  length, map, length-append, leb, ltb, take, drop, ◌==◌, Bool-cases, inl, inr, Option-cases,
}
use multi_model_llm_engine.Base.Int.{ℤ, pos}
use multi_model_llm_engine.Tokenizer.State.{EngBpe, lookup}
use multi_model_llm_engine.Tokenizer.Merge.{Sym, emit, text_at, merge_fragment, merge_loop}
use multi_model_llm_engine.Tokenizer.Encode.{
  encode, encode_loop, encode_fragment, prepend, special_in, fragment_length, fill,
}
use multi_model_llm_engine.Tokenizer.Chat.{
  Chat, chatml, plain, Piece, control, ordinary, put_id, put_text, put, put_pieces, prompt, build,
}

-- Ids for which there is room, or none.
unfoldable pub FitsIn {ℓ} : {A : Type ℓ} → ℕ → Option (List A) → Type 0
FitsIn room none = 0 ≤ room
FitsIn room (some ids) = length ids ≤ room

emit-FitsIn :
    (b : EngBpe) (buf : List ℕ) (sym : List Sym) (room : ℕ) → FitsIn room (emit b buf sym room)
unfolding FitsIn emit
emit-FitsIn b buf [] room = omega arith
emit-FitsIn b buf (x ∷ sym) zero = omega arith
emit-FitsIn b buf (x ∷ sym) (suc room) =
    elim (Option-cases (lookup b.vocab (text_at buf x.off x.len))) [
      | inl e ↦ rw (emit, e) (omega arith)
      | inr (i, e) ↦
          let rest = emit-FitsIn b buf sym room in
          elim (Option-cases (emit b buf sym room)) [
            | inl q ↦ rw (emit, e, q) (omega arith)
            | inr (ids, q) ↦
                let fits : FitsIn room (some ids) = rw q at rest in
                rw (emit, e, q) (omega (arith, fits))
          ]
    ]

fragment-FitsIn :
    (b : EngBpe) (fragment : List ℕ) (room : ℕ) → FitsIn room (encode_fragment b fragment room)
unfolding FitsIn encode_fragment merge_fragment
fragment-FitsIn b fragment room = elim (Bool-cases (ltb 1024 (length fragment))) [
  | inl e ↦ rw e (omega arith)
  | inr e ↦ elim (Option-cases (fill 0 fragment)) [
    | inl q ↦ rw (e, q) (omega arith)
    | inr ((buf, sym), q) ↦ rw (e, q) (emit-FitsIn b buf (merge_loop (length sym) b buf sym) room)
  ]
]

prepend-FitsIn :
    (ids : List ℕ) (rest : Option (List ℕ)) (room : ℕ)
    → length ids ≤ room
    → FitsIn (room - length ids) rest
    → FitsIn room (prepend ids rest)
unfolding FitsIn
prepend-FitsIn ids none room h fits = omega arith
prepend-FitsIn ids (some rest) room h fits = omega (arith, length-append ids rest)

-- A chunk that begins with ordinary text.
after_fragment-FitsIn :
    (b : EngBpe) (fragment : List ℕ) (room : ℕ) (later : ℕ → Option (List ℕ))
    → ((r : ℕ) → FitsIn r (later r))
    → FitsIn room (elim (encode_fragment b fragment room) [
      | none ↦ none
      | some ids ↦ prepend ids (later (room - length ids))
    ])
unfolding FitsIn
after_fragment-FitsIn b fragment room later fits =
    let first = fragment-FitsIn b fragment room in
    elim (Option-cases (encode_fragment b fragment room)) [
      | inl e ↦ rw e (omega arith)
      | inr (ids, e) ↦
          let here : FitsIn room (some ids) = rw e at first in
          rw e (prepend-FitsIn ids (later (room - length ids)) room here (fits (room - length ids)))
    ]

encode_loop-FitsIn :
    (fuel : ℕ) (b : EngBpe) (allow : Bool) (text : List ℕ) (room : ℕ)
    → FitsIn room (encode_loop fuel b allow text room)
unfolding FitsIn encode_loop
encode_loop-FitsIn fuel b allow [] room = omega arith
encode_loop-FitsIn zero b allow (c ∷ text) room = omega arith
encode_loop-FitsIn (suc fuel) b allow (c ∷ text) room =
    elim (Option-cases (special_in b allow (c ∷ text))) [
      | inl e ↦
          let flen = fragment_length (special_in b allow (c ∷ text)) c text in
          rw (encode_loop, e)
            (after_fragment-FitsIn b (take flen (c ∷ text)) room
              (encode_loop fuel b allow (drop flen (c ∷ text)))
              (encode_loop-FitsIn fuel b allow (drop flen (c ∷ text))))
      | inr ((zero, (id, len)), e) ↦ elim (Bool-cases (room == 0)) [
        | inl full ↦ rw (encode_loop, e, full) (omega arith)
        | inr more ↦
            let positive : 1 ≤ room = ground arith in
            rw (encode_loop, e, more)
              (prepend-FitsIn (id ∷ []) (encode_loop fuel b allow (drop len (c ∷ text)) (room - 1))
                room positive (encode_loop-FitsIn fuel b allow (drop len (c ∷ text)) (room - 1)))
      ]
      | inr ((suc k, w), e) ↦
          let flen = fragment_length (special_in b allow (c ∷ text)) c text in
          rw (encode_loop, e)
            (after_fragment-FitsIn b (take flen (c ∷ text)) room
              (encode_loop fuel b allow (drop flen (c ∷ text)))
              (encode_loop-FitsIn fuel b allow (drop flen (c ∷ text))))
    ]

length-map : (ids : List ℕ) → length (map pos ids) ≡ length ids
length-map [] = refl
length-map (i ∷ ids) = ap suc (length-map ids)

put-FitsIn :
    (b : EngBpe) (cap : ℕ) (out : List ℤ) (p : Piece)
    → length out ≤ cap
    → FitsIn cap (put b cap out p)
unfolding FitsIn put put_id put_text encode
put-FitsIn b cap out (control i) h =
    let more = length-append out (i ∷ []) in
    elim (Bool-cases (leb cap (length out))) [
      | inl full ↦ rw full (omega arith)
      | inr free ↦
          let room : length out + 1 ≤ cap = ground arith in rw free (omega (arith, more, room))
    ]
put-FitsIn b cap out (ordinary []) h = h
put-FitsIn b cap out (ordinary (c ∷ s)) h =
    let room = cap - length out in
    let encoded = encode_loop-FitsIn (length (c ∷ s)) b false (c ∷ s) room in
    elim (Option-cases (encode_loop (length (c ∷ s)) b false (c ∷ s) room)) [
      | inl e ↦ rw (put, put_text, encode, e) (omega arith)
      | inr (ids, e) ↦
          let fits : FitsIn room (some ids) = rw e at encoded in
          rw (put, put_text, encode, e)
            (omega (arith, fits, h, length-append out (map pos ids), length-map ids))
    ]

put_pieces-FitsIn :
    (b : EngBpe) (cap : ℕ) (ps : List Piece) (out : List ℤ)
    → length out ≤ cap
    → FitsIn cap (put_pieces b cap out ps)
unfolding FitsIn put_pieces
put_pieces-FitsIn b cap [] out h = h
put_pieces-FitsIn b cap (p ∷ ps) out h =
    let first = put-FitsIn b cap out p h in
    elim (Option-cases (put b cap out p)) [
      | inl e ↦ rw (put_pieces, e) (omega arith)
      | inr (out', e) ↦
          let fits : FitsIn cap (some out') = rw e at first in
          rw (put_pieces, e) (put_pieces-FitsIn b cap ps out' fits)
    ]

-- A prompt that `eng_chat_build` returns has no more ids than the caller's buffer, whatever the texts; the
-- other outcome is the refusal.
pub build-FitsIn :
    (c : Chat) (b : EngBpe) (system user : Option (List ℕ)) (think : Bool) (cap : ℕ)
    → FitsIn cap (build c b system user think cap)
unfolding build FitsIn
build-FitsIn c b system user think cap =
    elim c.family as (λ f. FitsIn cap (build (record c { family = f }) b system user think cap)) [
      | plain ↦ omega arith
      | chatml ↦ elim (Bool-cases (cap == 0)) [
        | inl e ↦ rw e (omega arith)
        | inr e ↦ rw e (
            put_pieces-FitsIn b cap (prompt (record c { family = chatml }) system user think) []
              (omega arith))
      ]
    ]
