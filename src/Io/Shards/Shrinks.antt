-- ===== src/Io/Shards/Shrinks.antt =====
-- What the scanner of src/io/k3_st.c leaves of the bytes that it is given.
pub mod Entries
use multi_model_llm_engine.Base.{
  ℕ, zero, suc, ◌+◌, ◌-◌, ◌*◌, ◌≤◌, ◌<◌, ◌≡◌, Bool, true, false, ◌||◌, Option, none, some, List, [],
  ◌∷◌, leb, ◌==◌, if◌then◌else◌, length, arith, Bool-cases, inl, inr,
}
use multi_model_llm_engine.Base.Int.{ℤ, pos, add_i64, mul_i64}
use multi_model_llm_engine.Io.Shards.Scan.{
  Scanner, then_scan, require, ws, lit_at, lit, unicode, i64_at, skip_at, starts, rest_behind,
  escape, str_chars, cons_to, str_text, is_decimal, digits_from, unsigned_at, i64, string_end, Mode,
  outside, mode_after, depth_after, skip_nested, skip_bare, skip_value,
}

-- Fewer than `n` bytes are left, if anything is.
abbrev pub Leaves : {A : Type 0} → ℕ → Option (A × List ℕ) → Type 0
Leaves n none = Unit {0}
Leaves n (some (a, s)) = length s < n

pub weaken-Leaves :
    {A : Type 0} (n k : ℕ) (m : Option (A × List ℕ)) → n ≤ k → Leaves n m → Leaves k m
weaken-Leaves n k none h l = tt
weaken-Leaves n k (some (a, s)) h l = omega (arith, h, l)

pub then_scan-Leaves :
    {A B : Type 0} (n k : ℕ) (m : Option (A × List ℕ)) (f : A → Scanner B)
    → Leaves n m
    → ((a : A) (s : List ℕ) → length s < n → Leaves k (f a s))
    → Leaves k (then_scan m f)
then_scan-Leaves n k none f l h = tt
then_scan-Leaves n k (some (a, s)) f l h = h a s l

pub if-Leaves :
    {A : Type 0} (n : ℕ) (b : Bool) (m k : Option (A × List ℕ))
    → Leaves n m
    → Leaves n k
    → Leaves n (if b then m else k)
if-Leaves n true m k h h' = h
if-Leaves n false m k h h' = h'

pub either-Leaves :
    {A : Type 0} (n : ℕ) (b : Bool) (m k : Option (A × List ℕ))
    → Leaves n m
    → Leaves n k
    → Leaves n (elim b [ true ↦ m | false ↦ k ])
either-Leaves n true m k h h' = h
either-Leaves n false m k h h' = h'

pub require-Leaves :
    {B : Type 0} (n : ℕ) (b : Bool) (s : List ℕ) (k : Unit {0} → Scanner B)
    → Leaves n (k tt s)
    → Leaves n (then_scan (require b s) k)
unfolding require
require-Leaves n true s k h = h
require-Leaves n false s k h = tt

pub ws-le : (s : List ℕ) → length (ws s) ≤ length s
unfolding ws
ws-le [] = omega arith
ws-le (c ∷ s) = elim (Bool-cases (leb c b' ')) [
  | inl e ↦ rw e (omega (arith, ws-le s))
  | inr e ↦ rw e (omega arith)
]

lit_at-Leaves : (c : ℕ) (s : List ℕ) → Leaves (length s) (lit_at c s)
lit_at-Leaves c [] = tt
lit_at-Leaves c (x ∷ s) = if-Leaves (suc (length s)) (x == c) (some (tt, s)) none (omega arith) tt

pub lit-Leaves : (c : ℕ) (s : List ℕ) → Leaves (length s) (lit c s)
unfolding lit
lit-Leaves c s = weaken-Leaves _ _ (lit_at c (ws s)) (ws-le s) (lit_at-Leaves c (ws s))

pub behind-lt :
    (c : ℕ) (s : List ℕ) → starts c (ws s) ≡ true → length (rest_behind (ws s)) < length s
behind-lt c s h = omega (arith, behind-lt_at c (ws s) h, ws-le s)
  where
    behind-lt_at : (c : ℕ) (s : List ℕ) → starts c s ≡ true → length (rest_behind s) < length s
    behind-lt_at c [] h = cc
    behind-lt_at c (x ∷ s) h = omega arith

unicode-Leaves : (s : List ℕ) → Leaves (suc (length s)) (unicode s)
unicode-Leaves [] = tt
unicode-Leaves (a ∷ []) = tt
unicode-Leaves (a ∷ b ∷ []) = tt
unicode-Leaves (a ∷ b ∷ c ∷ []) = tt
unicode-Leaves (a ∷ b ∷ c ∷ d ∷ s) = omega arith

pub escape-Leaves : (s : List ℕ) → Leaves (suc (length s)) (escape s)
unfolding escape
escape-Leaves [] = tt
escape-Leaves (e ∷ s) =
    let n = suc (suc (length s)) in
    if-Leaves n (e == b'n') _ _ (omega arith) (
      if-Leaves n (e == b't') _ _ (omega arith) (
        if-Leaves n (e == b'r') _ _ (omega arith) (
          if-Leaves n (e == b'b') _ _ (omega arith) (
            if-Leaves n (e == b'f') _ _ (omega arith) (
              if-Leaves n (e == b'u') _ _
                (weaken-Leaves (suc (length s)) n (unicode s) (omega arith) (unicode-Leaves s))
                (omega arith))))))

cons_to-Leaves : (n c : ℕ) (m : Option (List ℕ × List ℕ)) → Leaves n m → Leaves n (cons_to c m)
cons_to-Leaves n c none h = tt
cons_to-Leaves n c (some (cs, s)) h = h

pub str_chars-Leaves : (n : ℕ) (s : List ℕ) → Leaves (length s) (str_chars n s)
unfolding str_chars
str_chars-Leaves zero s = tt
str_chars-Leaves (suc n) [] = tt
str_chars-Leaves (suc n) (c ∷ s) =
    let k = suc (length s) in
    either-Leaves k (c == 34) _ _ (omega arith) (
      either-Leaves k (c == 92) _ _
        (escaped (escape s) (escape-Leaves s) (λ s'. str_chars-Leaves n s'))
        (cons_to-Leaves k c (str_chars n s)
          (weaken-Leaves (length s) k (str_chars n s) (omega arith) (str_chars-Leaves n s))))
  where
    escaped :
        (m : Option (ℕ × List ℕ))
        → Leaves (suc (length s)) m
        → ((s' : List ℕ) → Leaves (length s') (str_chars n s'))
        → Leaves
            (suc (length s))
            (elim m [ none ↦ none | some (x, s') ↦ cons_to x (str_chars n s') ])
    escaped none h f = tt
    escaped (some (x, s')) h f =
        cons_to-Leaves _ x (str_chars n s')
          (weaken-Leaves (length s') _ (str_chars n s') (omega (arith, h)) (f s'))

pub str_text-Leaves : (room : ℕ) (s : List ℕ) → Leaves (length s) (str_text room s)
unfolding str_text
str_text-Leaves room s = then_scan-Leaves (length s) _ (lit 34 s) _ (lit-Leaves 34 s) (λ _ s₁ h.
    then_scan-Leaves (length s₁) _ (str_chars (length s₁) s₁) _ (str_chars-Leaves (length s₁) s₁)
      (λ text s₂ k.
        require-Leaves (length s) (leb (length text + 1) room) s₂ _ (omega (arith, h, k))))

digits_from-le : (a : ℤ) (s : List ℕ) → length ((digits_from a s).1) ≤ length s
unfolding digits_from
digits_from-le a [] = omega arith
digits_from-le a (c ∷ s) = elim (Bool-cases (is_decimal c)) [
  | inl e ↦ rw e (omega (arith, digits_from-le (add_i64 (mul_i64 a (pos 10)) (pos (c - b'0'))) s))
  | inr e ↦ rw e (omega arith)
]

digits_from-lt :
    (c : ℕ) (s : List ℕ)
    → is_decimal c ≡ true
    → length ((digits_from (pos 0) (c ∷ s)).1) < length (c ∷ s)
unfolding digits_from
digits_from-lt c s e =
    rw e (omega (arith, digits_from-le (add_i64 (mul_i64 (pos 0) (pos 10)) (pos (c - b'0'))) s))

unsigned_at-Leaves : (b : Bool) (s : List ℕ) → Leaves (length s) (unsigned_at b s)
unfolding unsigned_at
unsigned_at-Leaves b [] = tt
unsigned_at-Leaves b (c ∷ s) = elim (Bool-cases (is_decimal c)) [
  | inl e ↦ (let l = digits_from-lt c s e in rw e l)
  | inr e ↦ rw e tt
]

i64_at-Leaves : (s : List ℕ) → Leaves (length s) (i64_at s)
i64_at-Leaves [] = tt
i64_at-Leaves (c ∷ s) =
    let n = suc (length s) in
    if-Leaves n (c == b'-') _ _
      (weaken-Leaves _ n (unsigned_at true s) (omega arith) (unsigned_at-Leaves true s))
      (if-Leaves n (c == b'+') _ _
        (weaken-Leaves _ n (unsigned_at false s) (omega arith) (unsigned_at-Leaves false s))
        (unsigned_at-Leaves false (c ∷ s)))

pub i64-Leaves : (s : List ℕ) → Leaves (length s) (i64 s)
unfolding i64
i64-Leaves s = weaken-Leaves _ _ (i64_at (ws s)) (ws-le s) (i64_at-Leaves (ws s))

-- As `Leaves`, for what is left alone.
abbrev Left : ℕ → Option (List ℕ) → Type 0
Left n none = Unit {0}
Left n (some s) = length s < n

weaken-Left : (n k : ℕ) (m : Option (List ℕ)) → n ≤ k → Left n m → Left k m
weaken-Left n k none h l = tt
weaken-Left n k (some s) h l = omega (arith, h, l)

if-Left :
    (n : ℕ) (b : Bool) (m k : Option (List ℕ)) → Left n m → Left n k → Left n (if b then m else k)
if-Left n true m k h h' = h
if-Left n false m k h h' = h'

string_end-Left : (b : Bool) (s : List ℕ) → Left (length s) (string_end b s)
unfolding string_end
string_end-Left b [] = tt
string_end-Left true (c ∷ s) =
    weaken-Left (length s) (suc (length s)) (string_end false s) (omega arith)
      (string_end-Left false s)
string_end-Left false (c ∷ s) =
    let rest = string_end (c == 92) s in
    if-Left (suc (length s)) (c == 34) (some s) rest (omega arith)
      (weaken-Left (length s) (suc (length s)) rest (omega arith) (string_end-Left (c == 92) s))

skip_nested-Left : (m : Mode) (depth : ℕ) (s : List ℕ) → Left (length s) (skip_nested m depth s)
unfolding skip_nested
skip_nested-Left m depth [] = tt
skip_nested-Left m depth (c ∷ s) =
    let rest = skip_nested (mode_after m c) (depth_after m c depth) s in
    if-Left (suc (length s)) (depth_after m c depth == 0) (some s) rest (omega arith) (
      weaken-Left (length s) (suc (length s)) rest (omega arith)
        (skip_nested-Left (mode_after m c) (depth_after m c depth) s))

skip_bare-le : (s : List ℕ) → length (skip_bare s) ≤ length s
unfolding skip_bare
skip_bare-le [] = omega arith
skip_bare-le (c ∷ s) = elim (Bool-cases (c == b',' || c == b'}' || c == b']')) [
  | inl e ↦ rw e (omega arith)
  | inr e ↦ rw e (omega (arith, skip_bare-le s))
]

skip_at-Left : (s : List ℕ) → Left (suc (length s)) (skip_at s)
skip_at-Left [] = tt
skip_at-Left (c ∷ s) =
    let n = suc (suc (length s)) in
    if-Left n (c == 34) _ _
      (weaken-Left (length s) n (string_end false s) (omega arith) (string_end-Left false s))
      (if-Left n (c == b'{' || c == b'[') _ _
        (weaken-Left (suc (length s)) n (skip_nested outside 0 (c ∷ s)) (omega arith)
          (skip_nested-Left outside 0 (c ∷ s)))
        (omega (arith, skip_bare-le (c ∷ s))))

left_lem :
    (n : ℕ) (m : Option (List ℕ))
    → Left n m
    → Leaves n (elim m [ none ↦ none | some rest ↦ some (tt {0}, rest) ])
left_lem n none h = tt
left_lem n (some s) h = h

pub skip_value-Leaves : (s : List ℕ) → Leaves (suc (length s)) (skip_value s)
unfolding skip_value
skip_value-Leaves s =
    left_lem _ (skip_at (ws s))
      (weaken-Left _ _ (skip_at (ws s)) (omega (arith, ws-le s)) (skip_at-Left (ws s)))
