-- ===== src/Tokenizer/Encode.antt =====
-- `eng_bpe_encode` of src/tokenizer/bpe.c, on the text from `i` on. `none` is -1.
pub mod Spelt
pub mod Filled
pub mod RoundTrip
pub mod Total
mod Tests
use multi_model_llm_engine.Base.{
  ℕ, zero, suc, ◌+◌, ◌-◌, Bool, true, false, ◌&&◌, Option, none, some, List, [], ◌∷◌, ◌++◌, ltb,
  leb, ◌==◌, if◌then◌else◌, length, take, drop, get_or,
}
use multi_model_llm_engine.Tokenizer.State.{EngBpe}
use multi_model_llm_engine.Tokenizer.Bytes.{mapped}
use multi_model_llm_engine.Tokenizer.Split.{next_fragment}
use multi_model_llm_engine.Tokenizer.Merge.{Sym, merge_fragment}

-- The bound of `memcmp` and the comparison.
unfoldable pub starts_with : List ℕ → List ℕ → Bool
starts_with [] text = true
starts_with (c ∷ s) [] = false
starts_with (c ∷ s) (x ∷ text) = c == x && starts_with s text

-- `sp_len`.
abbrev pub length_of : Option (ℕ × ℕ) → ℕ
length_of none = 0
length_of (some (id, len)) = len

-- The loop over the special tokens at one place.
unfoldable pub longest_special : EngBpe → List ℕ → List ℕ → Option (ℕ × ℕ) → Option (ℕ × ℕ)
longest_special b [] text best = best
longest_special b (id ∷ ids) text best =
    let s = get_or b.tok id [] in
    let kept = longest_special b ids text best in
    let taken = longest_special b ids text (some (id, length s)) in
    if leb (length s) (length_of best) then kept else if starts_with s text then taken else kept

-- Where the next special token starts, its id and its length.
unfoldable pub find_special : EngBpe → List ℕ → Option (ℕ × (ℕ × ℕ))
find_special b [] = none
find_special b (c ∷ text) =
    let later : Option (ℕ × (ℕ × ℕ)) = elim (find_special b text) [
      | none ↦ none
      | some (off, sp) ↦ some (suc off, sp)
    ] in
    if b.spec_first c
    then elim (longest_special b b.spec (c ∷ text) none) [ none ↦ later | some sp ↦ some (0, sp) ]
    else later

unfoldable pub special_in : EngBpe → Bool → List ℕ → Option (ℕ × (ℕ × ℕ))
special_in b allow text = if allow && ltb 0 (length b.spec) then find_special b text else none

-- `fbuf` and `sym`, from `w` on.
unfoldable pub fill : ℕ → List ℕ → Option (List ℕ × List Sym)
fill w [] = some ([], [])
fill w (c ∷ cs) =
    let rest = fill (w + length (mapped c)) cs in
    if ltb 4096 (w + length (mapped c)) then none else elim rest [
      | none ↦ none
      | some (buf, sym) ↦ some (mapped c ++ buf, record { off = w; len = length (mapped c) } ∷ sym)
    ]

-- One fragment: at most 1024 bytes.
unfoldable pub encode_fragment : EngBpe → List ℕ → ℕ → Option (List ℕ)
encode_fragment b fragment room =
    if ltb 1024 (length fragment)
    then none
    else elim (fill 0 fragment) [ none ↦ none | some (buf, sym) ↦ merge_fragment b buf sym room ]

-- The length of the fragment that the chunk before a special token begins with.
unfoldable pub fragment_length : Option (ℕ × (ℕ × ℕ)) → ℕ → List ℕ → ℕ
fragment_length none c text = next_fragment c text
fragment_length (some (off, sp)) c text = next_fragment c (take (off - 1) text)

-- Ids in front of those that follow.
abbrev pub prepend : List ℕ → Option (List ℕ) → Option (List ℕ)
prepend ids none = none
prepend ids (some rest) = some (ids ++ rest)

-- The loop, with room for so many ids, and in so many rounds at most: each takes a byte at least.
unfoldable pub encode_loop : ℕ → EngBpe → Bool → List ℕ → ℕ → Option (List ℕ)
encode_loop fuel b allow [] room = some []
encode_loop zero b allow (c ∷ text) room = none
encode_loop (suc fuel) b allow (c ∷ text) room =
    let sp = special_in b allow (c ∷ text) in
    let flen = fragment_length sp c text in
    let ordinary : Option (List ℕ) = elim (encode_fragment b (take flen (c ∷ text)) room) [
      | none ↦ none
      | some ids ↦ prepend ids (encode_loop fuel b allow (drop flen (c ∷ text)) (room - length ids))
    ] in
    elim sp [
      | some (zero, (id, len)) ↦
          if room == 0
          then none
          else prepend (id ∷ []) (encode_loop fuel b allow (drop len (c ∷ text)) (room - 1))
      | _ ↦ ordinary
    ]

unfoldable pub encode : EngBpe → List ℕ → ℕ → Bool → Option (List ℕ)
encode b text cap allow = encode_loop (length text) b allow text cap
