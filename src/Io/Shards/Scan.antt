-- ===== src/Io/Shards/Scan.antt =====
-- The scanner of src/io/k3_st.c over the bytes from `p` to `end`; `none` is a return of 0.
use Prim.Native.Nat.{bit_or}
use multi_model_llm_engine.Base.{
  ℕ, zero, suc, ◌+◌, ◌-◌, ◌*◌, ◌%◌, ◌^◌, Bool, true, false, ◌&&◌, ◌||◌, Option, none, some, List,
  [], ◌∷◌, ltb, leb, ◌==◌, if◌then◌else◌, length,
}
use multi_model_llm_engine.Base.Int.{
  ℤ, pos, negsuc, leb_ℤ, add_i64, sub_i64, mul_i64, ◌+ℤ◌, ◌-ℤ◌, to_u64,
}

abbrev pub Scanner : Type 0 → Type 0
Scanner A = List ℕ → Option (A × List ℕ)

abbrev pub pure : {A : Type 0} → A → Scanner A
pure a s = some (a, s)

abbrev pub then_scan : {A B : Type 0} → Option (A × List ℕ) → (A → Scanner B) → Option (B × List ℕ)
then_scan none f = none
then_scan (some (a, s)) f = f a s

infixl 5 ◌>>=◌ ◌>>◌
abbrev pub ◌>>=◌ : {A B : Type 0} → Scanner A → (A → Scanner B) → Scanner B
◌>>=◌ p f s = then_scan (p s) f

abbrev pub ◌>>◌ : {B : Type 0} → Scanner (Unit {0}) → Scanner B → Scanner B
p >> q = p >>= λ _. q

-- `goto bad` if a test fails.
unfoldable pub require : Bool → Scanner (Unit {0})
require b s = if b then some (tt, s) else none

-- `ws`.
unfoldable pub ws : List ℕ → List ℕ
ws [] = []
ws (c ∷ s) = let rest = ws s in if leb c b' ' then rest else c ∷ s

-- `s->p < s->end && *s->p == c`.
abbrev pub starts : ℕ → List ℕ → Bool
starts c [] = false
starts c (x ∷ s) = x == c

-- The bytes behind the first.
abbrev pub rest_behind : List ℕ → List ℕ
rest_behind [] = []
rest_behind (x ∷ s) = s

abbrev pub lit_at : ℕ → List ℕ → Option (Unit {0} × List ℕ)
lit_at c [] = none
lit_at c (x ∷ s) = if x == c then some (tt, s) else none

-- `lit`.
unfoldable pub lit : ℕ → Scanner (Unit {0})
lit c s = lit_at c (ws s)

-- A hexadecimal digit as the `unsigned` that is added: `char` is signed.
unfoldable pub hex_digit : ℕ → ℕ
hex_digit h =
    let c : ℤ = if ltb h 128 then pos h else negsuc (255 - h) in
    let low : ℤ = if ltb h 128 then pos (bit_or h 32) else negsuc (255 - bit_or h 32) in
    let digit : ℤ = if leb_ℤ c (pos b'9') then c -ℤ pos b'0' else low -ℤ pos b'a' +ℤ pos 10 in
    to_u64 digit % 2 ^ 32

-- `\\uXXXX`: an ASCII character, or a question mark.
abbrev ascii : ℕ → ℕ
ascii v = if ltb v 128 then v else b'?'

unfoldable pub code_unit : ℕ → List ℕ → ℕ
code_unit v [] = v
code_unit v (h ∷ hs) = code_unit ((v * 16 + hex_digit h) % 2 ^ 32) hs

abbrev pub unicode : Scanner ℕ
unicode (a ∷ b ∷ c ∷ d ∷ s) = some (ascii (code_unit 0 (a ∷ b ∷ c ∷ d ∷ [])), s)
unicode _ = none

-- What stands behind a backslash.
unfoldable pub escape : Scanner ℕ
escape [] = none
escape (e ∷ s) =
    if e == b'n'
    then some (10, s)
    else if e == b't'
    then some (9, s)
    else if e == b'r'
    then some (13, s)
    else if e == b'b'
    then some (8, s)
    else if e == b'f'
    then some (12, s)
    else if e == b'u'
    then unicode s
    else some (e, s)

abbrev pub cons_to : ℕ → Option (List ℕ × List ℕ) → Option (List ℕ × List ℕ)
cons_to c none = none
cons_to c (some (cs, s)) = some (c ∷ cs, s)

-- The characters of a string and the bytes behind its closing quote. Each takes a byte at least.
unfoldable pub str_chars : ℕ → Scanner (List ℕ)
str_chars zero s = none
str_chars (suc n) [] = none
str_chars (suc n) (c ∷ s) = elim (c == 34) [
  | true ↦ some ([], s)
  | false ↦ elim (c == 92) [
    | true ↦ elim (escape s) [ none ↦ none | some (x, s') ↦ cons_to x (str_chars n s') ]
    | false ↦ cons_to c (str_chars n s)
  ]
]

-- `str_`, into `cap` bytes.
unfoldable pub str_text : ℕ → Scanner (List ℕ)
str_text room = do
  lit 34
  text ← (λ s. str_chars (length s) s)
  require (leb (length text + 1) room)
  pure text

abbrev pub is_decimal : ℕ → Bool
is_decimal c = leb b'0' c && leb c b'9'

-- The loop over digits.
unfoldable pub digits_from : ℤ → List ℕ → ℤ × List ℕ
digits_from a [] = (a, [])
digits_from a (c ∷ s) =
    let rest = digits_from (add_i64 (mul_i64 a (pos 10)) (pos (c - b'0'))) s in
    if is_decimal c then rest else (a, c ∷ s)

unfoldable pub unsigned_at : Bool → Scanner ℤ
unsigned_at negative [] = none
unsigned_at negative (c ∷ s) =
    if is_decimal c
    then (let (a, rest) = digits_from (pos 0) (c ∷ s) in
        some ((if negative then sub_i64 (pos 0) a else a), rest))
    else none

-- `i64_`.
abbrev pub i64_at : Scanner ℤ
i64_at [] = none
i64_at (c ∷ s) =
    if c == b'-'
    then unsigned_at true s
    else if c == b'+'
    then unsigned_at false s
    else unsigned_at false (c ∷ s)

unfoldable pub i64 : Scanner ℤ
i64 s = i64_at (ws s)

-- The bytes behind the quote that closes a string; a byte behind a backslash is passed over.
unfoldable pub string_end : Bool → List ℕ → Option (List ℕ)
string_end escaped [] = none
string_end true (c ∷ s) = string_end false s
string_end false (c ∷ s) = let rest = string_end (c == 92) s in if c == 34 then some s else rest

-- Where the walk over a nested value is: outside of strings, inside one, or behind a backslash in one.
pub data Mode : Type 0 where
  outside inside escaped : Mode

unfoldable pub mode_after : Mode → ℕ → Mode
mode_after outside c = if c == 34 then inside else outside
mode_after inside c = if c == 34 then outside else if c == 92 then escaped else inside
mode_after escaped c = inside

unfoldable pub depth_after : Mode → ℕ → ℕ → ℕ
depth_after outside c depth =
    if c == b'{' || c == b'['
    then depth + 1
    else if c == b'}' || c == b']'
    then depth - 1
    else depth
depth_after inside c depth = depth
depth_after escaped c depth = depth

-- The loop over an object or an array, whose first byte opens it.
unfoldable pub skip_nested : Mode → ℕ → List ℕ → Option (List ℕ)
skip_nested m depth [] = none
skip_nested m depth (c ∷ s) =
    let rest = skip_nested (mode_after m c) (depth_after m c depth) s in
    if depth_after m c depth == 0 then some s else rest

unfoldable pub skip_bare : List ℕ → List ℕ
skip_bare [] = []
skip_bare (c ∷ s) =
    let rest = skip_bare s in if c == b',' || c == b'}' || c == b']' then c ∷ s else rest

abbrev pub skip_at : List ℕ → Option (List ℕ)
skip_at [] = none
skip_at (c ∷ s) =
    if c == 34
    then string_end false s
    else if c == b'{' || c == b'['
    then skip_nested outside 0 (c ∷ s)
    else some (skip_bare (c ∷ s))

-- `skip_value`.
unfoldable pub skip_value : Scanner (Unit {0})
skip_value s = elim (skip_at (ws s)) [ none ↦ none | some rest ↦ some (tt, rest) ]
