-- ===== src/Tokenizer/Split/Progress.antt =====
-- How far the fragments of src/tokenizer/bpe.c reach.
use multi_model_llm_engine.Base.{
  ℕ, suc, ◌+◌, ◌-◌, ◌≤◌, ◌≡◌, refl, Bool, true, false, not, ◌&&◌, ◌||◌, Option, none, some, List,
  [], ◌∷◌, ltb, ◌==◌, if◌then◌else◌, length, drop, length-drop, ltb→lt, arith, All, Bool-cases, inl,
  inr,
}
use multi_model_llm_engine.Tokenizer.Split.{
  is_letter, is_digit, is_space, is_newline, is_punctuation, is_blank, run, matches, first_match,
  contractions, contraction, word, digit, before_text, punctuation, whitespace, first_rule,
  next_fragment,
}

run_le : (p : ℕ → Bool) (s : List ℕ) → run p s ≤ length s
unfolding run
run_le p [] = omega arith
run_le p (c ∷ s) = ground (arith, run_le p s)

-- What a rule may answer for a text of `n` bytes.
abbrev Fits : ℕ → Option ℕ → Type 0
Fits n none = Unit
Fits n (some l) = (1 ≤ l) × (l ≤ n)

first_rule-Fits :
    (n : ℕ) (rules : List (Option ℕ))
    → 1 ≤ n
    → All (Fits n) rules
    → (1 ≤ first_rule rules) × (first_rule rules ≤ n)
unfolding first_rule
first_rule-Fits n [] h a = (omega arith, h)
first_rule-Fits n (none ∷ rules) h (u, a) = first_rule-Fits n rules h a
first_rule-Fits n (some l ∷ rules) h (f, a) = f

matches_le : (c s : List ℕ) → matches c s ≡ true → length c ≤ length s
unfolding matches
matches_le [] s h = omega arith
matches_le (c ∷ cs) [] h = cc
matches_le (c ∷ cs) (x ∷ s) h = ground (arith, h, matches_le cs s)

abbrev Within : ℕ → Option ℕ → Type 0
Within n none = Unit
Within n (some l) = l ≤ n

first_match_le : (cs : List (List ℕ)) (s : List ℕ) → Within (length s) (first_match cs s)
unfolding first_match
first_match_le [] s = tt
first_match_le (c ∷ cs) s = elim (Bool-cases (matches c s)) [
  | inl h ↦ rw h (matches_le c s h)
  | inr h ↦ rw h (first_match_le cs s)
]

contraction-Fits : (c : ℕ) (s : List ℕ) → Fits (suc (length s)) (contraction c s)
unfolding contraction
contraction-Fits c s =
    of_match (c == 39) (first_match contractions s) (first_match_le contractions s)
  where
    of_match :
        (b : Bool) (o : Option ℕ)
        → Within (length s) o
        → Fits (suc (length s)) (if b then elim o [ none ↦ none | some l ↦ some (1 + l) ] else none)
    of_match false o h = tt
    of_match true none h = tt
    of_match true (some l) h = (omega arith, omega arith)

guarded-Fits :
    (n l : ℕ) (b : Bool) → (b ≡ true → (1 ≤ l) × (l ≤ n)) → Fits n (if b then some l else none)
guarded-Fits n l true h = h refl
guarded-Fits n l false h = tt

run_drop_le : (p : ℕ → Bool) (j : ℕ) (s : List ℕ) → run p (drop j s) ≤ length s - j
run_drop_le p j s = omega (arith, run_le p (drop j s), length-drop j s)

second : (a b : Bool) → (a && b) ≡ true → b ≡ true
second true b h = h
second false b h = cc

word-Fits : (c : ℕ) (s : List ℕ) → Fits (suc (length s)) (word c s)
unfolding word
word-Fits c s =
    let j =
      if not (is_letter c) && not (is_digit c) && not (c == 13) && not (c == 10) then 1 else 0 in
    let k = run is_letter (drop j (c ∷ s)) in
    guarded-Fits (suc (length s)) (j + k) (ltb 0 k) (λ h.
      let positive = ltb→lt 0 k h in
      let le = run_drop_le is_letter j (c ∷ s) in
      (omega (arith, positive), omega (arith, positive, le)))

digit-Fits : (c : ℕ) (s : List ℕ) → Fits (suc (length s)) (digit c)
unfolding digit
digit-Fits c s = guarded-Fits (suc (length s)) 1 (is_digit c) (λ h. (omega arith, omega arith))

punctuation-Fits : (c : ℕ) (s : List ℕ) → Fits (suc (length s)) (punctuation c s)
unfolding punctuation
punctuation-Fits c s =
    let j = if c == 32 then 1 else 0 in
    let k = run is_punctuation (drop j (c ∷ s)) in
    let l = run is_newline (drop (j + k) (c ∷ s)) in
    guarded-Fits (suc (length s)) (j + k + l)
      ((not (is_space c) || c == 32 && before_text s) && ltb 0 k)
      (λ h.
        let positive =
          ltb→lt 0 k (second (not (is_space c) || c == 32 && before_text s) (ltb 0 k) h) in
        let le = run_drop_le is_punctuation j (c ∷ s) in
        let le' = run_drop_le is_newline (j + k) (c ∷ s) in
        (omega (arith, positive), omega (arith, positive, le, le')))

whitespace-Fits : (c : ℕ) (s : List ℕ) → Fits (suc (length s)) (whitespace c s)
unfolding whitespace
whitespace-Fits c s =
    let j = run is_blank (c ∷ s) in
    of_tests (not (is_space c)) j (run is_newline (drop j (c ∷ s))) (suc (length s))
      (run_le is_blank (c ∷ s)) (run_drop_le is_newline j (c ∷ s)) (omega arith)
  where
    of_tests :
        (b : Bool) (j k n : ℕ)
        → j ≤ n
        → k ≤ n - j
        → 1 ≤ n
        → Fits n (
            if b
            then none
            else if ltb 0 k
            then some (j + k)
            else if ltb j n && ltb 1 j
            then some (j - 1)
            else if ltb 0 j
            then some j
            else some 1)
    of_tests true j k n h₁ h₂ h₃ = tt
    of_tests false j k n h₁ h₂ h₃ = elim (Bool-cases (ltb 0 k)) [
      | inl e ↦ rw e (let positive = ltb→lt 0 k e in (omega arith, omega arith))
      | inr e ↦ rw e (elim (Bool-cases (ltb j n && ltb 1 j)) [
        | inl f ↦
            rw f
              (let more = ltb→lt 1 j (second (ltb j n) (ltb 1 j) f) in (omega arith, omega arith))
        | inr f ↦ rw f (elim (Bool-cases (ltb 0 j)) [
          | inl g ↦ rw g (let positive = ltb→lt 0 j g in (omega arith, omega arith))
          | inr g ↦ rw g (omega arith, h₃)
        ])
      ])
    ]

-- A fragment takes at least one byte, and no more than the text has.
pub next_fragment_progress :
    (c : ℕ) (s : List ℕ) → (1 ≤ next_fragment c s) × (next_fragment c s ≤ length (c ∷ s))
unfolding next_fragment
next_fragment_progress c s = first_rule-Fits (suc (length s)) _ (omega arith) (
  contraction-Fits c s,
  (word-Fits c s, (digit-Fits c s, (punctuation-Fits c s, (whitespace-Fits c s, tt)))),
)
