-- ===== src/Tokenizer/Split.antt =====
-- `next_fragment` of src/tokenizer/bpe.c: the qwen2 split, on the text from `i` to the end of the chunk. The
-- result is the length of the fragment, `end - i`.
pub mod Progress
use Prim.Native.Nat.{bit_or}
use multi_model_llm_engine.Base.{
  ℕ, zero, suc, ◌+◌, ◌-◌, Bool, true, false, not, ◌&&◌, ◌||◌, Option, none, some, List, [], ◌∷◌,
  ltb, leb, ◌==◌, if◌then◌else◌, length, drop,
}

unfoldable pub is_letter : ℕ → Bool
is_letter c = leb b'a' c && leb c b'z' || leb b'A' c && leb c b'Z' || leb 0x80 c

unfoldable pub is_digit : ℕ → Bool
is_digit c = leb b'0' c && leb c b'9'

unfoldable pub is_space : ℕ → Bool
is_space c = c == 32 || c == 9 || c == 10 || c == 13 || c == 11 || c == 12

unfoldable pub is_newline : ℕ → Bool
is_newline c = c == 13 || c == 10

unfoldable pub is_punctuation : ℕ → Bool
is_punctuation c = not (is_space c) && not (is_letter c) && not (is_digit c)

unfoldable pub is_blank : ℕ → Bool
is_blank c = is_space c && not (is_newline c)

-- `eng_bpe_ascii_exact`.
unfoldable pub ascii_exact : List ℕ → Bool
ascii_exact [] = true
ascii_exact (c ∷ s) = not (leb 0x80 c) && ascii_exact s

-- A `while` loop over a class: how far it goes.
unfoldable pub run : (ℕ → Bool) → List ℕ → ℕ
run p [] = 0
run p (c ∷ s) = if p c then suc (run p s) else 0

-- The inner loop over one contraction.
unfoldable pub matches : List ℕ → List ℕ → Bool
matches [] s = true
matches (c ∷ cs) [] = false
matches (c ∷ cs) (x ∷ s) = bit_or x 0x20 == c && matches cs s

unfoldable pub first_match : List (List ℕ) → List ℕ → Option ℕ
first_match [] s = none
first_match (c ∷ cs) s = if matches c s then some (length c) else first_match cs s

abbrev pub contractions : List (List ℕ)
contractions =
    (b's' ∷ [])
    ∷ (b't' ∷ [])
    ∷ (b'm' ∷ [])
    ∷ (b'd' ∷ [])
    ∷ (b'r' ∷ b'e' ∷ [])
    ∷ (b'v' ∷ b'e' ∷ [])
    ∷ (b'l' ∷ b'l' ∷ [])
    ∷ []

-- The rules in their order; `none` falls through to the next.
unfoldable pub contraction : ℕ → List ℕ → Option ℕ
contraction c s =
    if c == 39
    then elim (first_match contractions s) [ none ↦ none | some l ↦ some (1 + l) ]
    else none

unfoldable pub word : ℕ → List ℕ → Option ℕ
word c s =
    let j =
      if not (is_letter c) && not (is_digit c) && not (c == 13) && not (c == 10) then 1 else 0 in
    let k = run is_letter (drop j (c ∷ s)) in if ltb 0 k then some (j + k) else none

unfoldable pub digit : ℕ → Option ℕ
digit c = if is_digit c then some 1 else none

-- Whether a byte follows that is no space.
unfoldable pub before_text : List ℕ → Bool
before_text [] = false
before_text (d ∷ s) = not (is_space d)

unfoldable pub punctuation : ℕ → List ℕ → Option ℕ
punctuation c s =
    let j = if c == 32 then 1 else 0 in
    let k = run is_punctuation (drop j (c ∷ s)) in
    if (not (is_space c) || c == 32 && before_text s) && ltb 0 k
    then some (j + k + run is_newline (drop (j + k) (c ∷ s)))
    else none

unfoldable pub whitespace : ℕ → List ℕ → Option ℕ
whitespace c s =
    let j = run is_blank (c ∷ s) in
    let k = run is_newline (drop j (c ∷ s)) in
    if not (is_space c)
    then none
    else if ltb 0 k
    then some (j + k)
    else if ltb j (length (c ∷ s)) && ltb 1 j
    then some (j - 1)
    else if ltb 0 j
    then some j
    else some 1

unfoldable pub first_rule : List (Option ℕ) → ℕ
first_rule [] = 1
first_rule (none ∷ rules) = first_rule rules
first_rule (some l ∷ rules) = l

unfoldable pub next_fragment : ℕ → List ℕ → ℕ
next_fragment c s =
    first_rule (contraction c s ∷ word c s ∷ digit c ∷ punctuation c s ∷ whitespace c s ∷ [])
