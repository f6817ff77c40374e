-- ===== src/Tokenizer/Bytes.antt =====
-- The byte alphabet of src/tokenizer/bpe.c, and the decoding of a token's text. An `int` that a code point
-- or a byte is held in is a number here; `none` is -1.
pub mod Inverse
use Prim.Native.Nat.{bit_and, bit_or}
use multi_model_llm_engine.Base.{
  ℕ, zero, suc, ◌+◌, ◌-◌, ◌*◌, ◌/◌, ◌%◌, ◌^◌, Bool, true, false, ◌&&◌, ◌||◌, Option, none, some,
  List, [], ◌∷◌, ◌++◌, ltb, leb, ◌==◌, if◌then◌else◌, length, take, drop,
}

-- `used[c]`: the bytes that stand for themselves.
unfoldable pub is_plain : ℕ → Bool
is_plain c = leb b'!' c && leb c b'~' || leb 0xA1 c && leb c 0xAC || leb 0xAE c && leb c 0xFF

-- `n` when the loop reaches a byte.
unfoldable pub shifted_before : ℕ → ℕ
shifted_before zero = 0
shifted_before (suc c) = if is_plain c then shifted_before c else shifted_before c + 1

-- `cps[c]`.
unfoldable pub code_point : ℕ → ℕ
code_point c = if is_plain c then c else 0x100 + shifted_before c

-- `b2u[c]`, of `b2u_len[c]` bytes.
unfoldable pub utf8 : ℕ → List ℕ
utf8 cp =
    if ltb cp 0x80 then cp ∷ [] else bit_or 0xC0 (cp / 2 ^ 6) ∷ bit_or 0x80 (bit_and cp 0x3F) ∷ []

unfoldable pub mapped : ℕ → List ℕ
mapped c = utf8 (code_point c)

-- The mapped text of some bytes.
unfoldable pub map_bytes : List ℕ → List ℕ
map_bytes [] = []
map_bytes (c ∷ cs) = mapped c ++ map_bytes cs

-- The last byte below `n` that is written to `u2b[cp]`.
unfoldable pub last_byte : ℕ → ℕ → Option ℕ
last_byte zero cp = none
last_byte (suc n) cp = if code_point n == cp then some n else last_byte n cp

-- `u2b[cp]`, where `cp` is in the table.
unfoldable pub u2b : ℕ → Option ℕ
u2b cp = if ltb cp 0x200 then last_byte 256 cp else none

-- The code point at the front of a text, and how many bytes it takes.
unfoldable pub code_point_at : ℕ → List ℕ → ℕ × ℕ
code_point_at c [] = (c, 1)
code_point_at c (d ∷ []) =
    if ltb c 0x80
    then (c, 1)
    else if bit_and c 0xE0 == 0xC0
    then (bit_or (bit_and c 0x1F * 2 ^ 6) (bit_and d 0x3F), 2)
    else (c, 1)
code_point_at c (d ∷ e ∷ rest) =
    if ltb c 0x80
    then (c, 1)
    else if bit_and c 0xE0 == 0xC0
    then (bit_or (bit_and c 0x1F * 2 ^ 6) (bit_and d 0x3F), 2)
    else if bit_and c 0xF0 == 0xE0
    then (bit_or (bit_or (bit_and c 0x0F * 2 ^ 12) (bit_and d 0x3F * 2 ^ 6)) (bit_and e 0x3F), 3)
    else (c, 1)

-- What a code point is turned into: a byte, or its own bytes.
unfoldable pub piece : ℕ × ℕ → List ℕ → List ℕ
piece (cp, adv) text = elim (u2b cp) [ none ↦ take adv text | some byte ↦ byte ∷ [] ]

-- The loop of `eng_bpe_decode_one` with room for `cap` bytes, in so many rounds at most: each takes a byte.
unfoldable pub decode_text : ℕ → List ℕ → ℕ → Option (List ℕ)
decode_text zero s cap = some []
decode_text (suc fuel) [] cap = some []
decode_text (suc fuel) (c ∷ s) cap =
    let at = code_point_at c s in
    let p = piece at (c ∷ s) in
    let rest = decode_text fuel (drop at.1 (c ∷ s)) (cap - length p) in
    if ltb cap (length p) then none else elim rest [ none ↦ none | some out ↦ some (p ++ out) ]
