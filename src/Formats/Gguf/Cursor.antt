-- ===== src/Formats/Gguf/Cursor.antt =====
-- The bounds-checked cursor of src/formats/gguf.c. A read that does not fit ends the walk with `grow`:
-- in the source `bad` latches, each further read is 0, and the next test of `bad` returns 1 before
-- any of these is kept.
use multi_model_llm_engine.Base.{
  ℕ, zero, suc, ◌+◌, ◌-◌, ◌*◌, ◌^◌, Bool, Option, none, some, List, [], ◌∷◌, ltb, if◌then◌else◌,
}
use multi_model_llm_engine.Base.Int.{ℤ, pos, negsuc}

-- What `parse_header` returns, or would: 0, 1 and -1.
pub data Walk (A : Type 0) : Type 0 where
  ok : A → Walk A
  grow : Walk A
  malformed : Walk A

-- `Cur`: how many bytes lie before `p`, and those from `p` to `end`.
pub record Cur : Type 0 where
  pub at : ℕ
  pub rest : List ℕ

abbrev pub Parser : Type 0 → Type 0
Parser A = Cur → Walk (A × Cur)

abbrev pub pure : {A : Type 0} → A → Parser A
pure a c = ok (a, c)

abbrev pub reject : {A : Type 0} → Parser A
reject c = malformed

abbrev pub then_parse : {A B : Type 0} → Walk (A × Cur) → (A → Parser B) → Walk (B × Cur)
then_parse (ok (a, c)) f = f a c
then_parse grow f = grow
then_parse malformed f = malformed

infixl 5 ◌>>=◌ ◌>>◌
abbrev pub ◌>>=◌ : {A B : Type 0} → Parser A → (A → Parser B) → Parser B
◌>>=◌ p f c = then_parse (p c) f

abbrev pub ◌>>◌ : {B : Type 0} → Parser (Unit {0}) → Parser B → Parser B
p >> q = p >>= λ _. q

-- A test that ends the walk with -1.
unfoldable pub require : Bool → Parser (Unit {0})
require b c = if b then ok (tt, c) else malformed

-- `rd`: the number of the next `n` bytes, the lowest first, and the bytes behind.
unfoldable pub read_le : ℕ → List ℕ → Option (ℕ × List ℕ)
read_le zero bs = some (0, bs)
read_le (suc n) [] = none
read_le (suc n) (b ∷ bs) = elim (read_le n bs) [
  | none ↦ none
  | some (v, rest) ↦ some (b + 256 * v, rest)
]

unfoldable pub rd : ℕ → Parser ℕ
rd n c = elim (read_le n c.rest) [
  | none ↦ grow
  | some (v, rest) ↦ ok (v, record { at = c.at + n; rest = rest })
]

-- The first `n` bytes and those behind, if there are so many.
unfoldable pub split : ℕ → List ℕ → Option (List ℕ × List ℕ)
split zero bs = some ([], bs)
split (suc n) [] = none
split (suc n) (b ∷ bs) = elim (split n bs) [ none ↦ none | some (s, rest) ↦ some (b ∷ s, rest) ]

unfoldable pub take_bytes : ℕ → Parser (List ℕ)
take_bytes n c = elim (split n c.rest) [
  | none ↦ grow
  | some (s, rest) ↦ ok (s, record { at = c.at + n; rest = rest })
]

-- `rd_str`: a length in eight bytes, then so many bytes.
unfoldable pub rd_str : Parser (List ℕ)
rd_str = do n ← rd 8; take_bytes n

-- `c->p - blob`.
unfoldable pub position : Parser ℕ
position c = ok (c.at, c)

-- The signed number that the low `w` bits of a word stand for.
unfoldable pub signed : ℕ → ℕ → ℤ
signed w v = if ltb v (2 ^ (w - 1)) then pos v else negsuc (2 ^ w - 1 - v)
