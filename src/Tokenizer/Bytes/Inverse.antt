-- ===== src/Tokenizer/Bytes/Inverse.antt =====
-- The byte alphabet of src/tokenizer/bpe.c and its inverse.
use Prim.Native.Nat.{bit_and, bit_or}
use multi_model_llm_engine.Base.{
  not, ◌^◌, ℕ, zero, suc, ◌-◌, ◌*◌, ◌<◌, ◌≤◌, ◌≡◌, refl, sym, ap, ◌∙◌, Bool, true, false, ◌&&◌,
  Option, none, some, List, [], ◌∷◌, ◌++◌, ltb, ◌==◌, ==_iff, if◌then◌else◌, length, drop, arith,
  All,
}
use multi_model_llm_engine.Tokenizer.Bytes.{
  is_plain, shifted_before, code_point, utf8, mapped, last_byte, u2b, code_point_at, piece,
  decode_text, map_bytes,
}

-- Over a small range, every value is checked by evaluation.
unfoldable pub all_below : ℕ → (ℕ → Bool) → Bool
all_below zero p = true
all_below (suc n) p = p n && all_below n p

pub below : (n : ℕ) (p : ℕ → Bool) (x : ℕ) → all_below n p ≡ true → x < n → p x ≡ true
unfolding all_below
below zero p x h l = absurd (omega arith)
below (suc n) p x h l = ground (arith, below n p x)

eq_option : Option ℕ → ℕ → Bool
eq_option none c = false
eq_option (some d) c = d == c

eq_option→eq : (o : Option ℕ) (c : ℕ) → eq_option o c ≡ true → o ≡ some c
unfolding eq_option
eq_option→eq none c h = cc
eq_option→eq (some d) c h = ap some ((==_iff d c).0 h)

u2b_table : all_below 256 (λ c. eq_option (u2b (code_point c)) c) ≡ true
unfolding all_below u2b last_byte code_point is_plain shifted_before eq_option
u2b_table = refl

-- Each byte's code point leads back to the byte.
u2b-code_point : (c : ℕ) → c < 256 → u2b (code_point c) ≡ some c
u2b-code_point c l = eq_option→eq (u2b (code_point c)) c (below 256 _ c u2b_table l)

-- Whether a text of one or two bytes reads as the code point.
reads_as : ℕ → List ℕ → Bool
reads_as cp [] = false
reads_as cp (a ∷ []) = ltb a 0x80 && a == cp
reads_as cp (a ∷ b ∷ []) =
    not (ltb a 0x80)
    && (bit_and a 0xE0 == 0xC0)
    && bit_or (bit_and a 0x1F * 2 ^ 6) (bit_and b 0x3F) == cp
reads_as cp (a ∷ b ∷ c ∷ rest) = false

utf8_table : all_below 256 (λ c. reads_as (code_point c) (mapped c)) ≡ true
unfolding all_below mapped utf8 code_point is_plain shifted_before reads_as
utf8_table = refl

-- A text that reads as a code point: what the decoder finds at its front, whatever is behind it.
record Fronts (cp : ℕ) (text : List ℕ) : Type 0 where
  pub first : ℕ
  pub tail : List ℕ
  pub whole : text ≡ first ∷ tail
  pub reads : (s : List ℕ) → code_point_at first (tail ++ s) ≡ (cp, length text)

reads_as→Fronts : (cp : ℕ) (text : List ℕ) → reads_as cp text ≡ true → Fronts cp text
unfolding reads_as code_point_at
reads_as→Fronts cp [] h = cc
reads_as→Fronts cp (a ∷ []) h =
    let low : ltb a 0x80 ≡ true = ground (arith, h) in
    let same : a ≡ cp = ground (arith, h) in
    record { first = a; tail = []; whole = refl; reads = alone low same }
  where
    alone : ltb a 0x80 ≡ true → a ≡ cp → (s : List ℕ) → code_point_at a s ≡ (cp, 1)
    alone low same [] = ap (λ x. (x, 1)) same
    alone low same (d ∷ []) = rw low (ap (λ x. (x, 1)) same)
    alone low same (d ∷ e ∷ rest) = rw low (ap (λ x. (x, 1)) same)
reads_as→Fronts cp (a ∷ b ∷ []) h =
    let high : ltb a 0x80 ≡ false = ground (arith, h) in
    let lead : (bit_and a 0xE0 == 0xC0) ≡ true = ground (arith, h) in
    let same : bit_or (bit_and a 0x1F * 2 ^ 6) (bit_and b 0x3F) ≡ cp = ground (arith, h) in
    record { first = a; tail = b ∷ []; whole = refl; reads = both high lead same }
  where
    both :
        ltb a 0x80 ≡ false
        → (bit_and a 0xE0 == 0xC0) ≡ true
        → bit_or (bit_and a 0x1F * 2 ^ 6) (bit_and b 0x3F) ≡ cp
        → (s : List ℕ) → code_point_at a (b ∷ s) ≡ (cp, 2)
    both high lead same [] = rw (high, lead) (ap (λ x. (x, 2)) same)
    both high lead same (e ∷ rest) = rw (high, lead) (ap (λ x. (x, 2)) same)
reads_as→Fronts cp (a ∷ b ∷ c ∷ rest) h = cc

mapped-Fronts : (c : ℕ) → c < 256 → Fronts (code_point c) (mapped c)
mapped-Fronts c l = reads_as→Fronts (code_point c) (mapped c) (below 256 _ c utf8_table l)

drop-front : (text s : List ℕ) → drop (length text) (text ++ s) ≡ s
drop-front [] s = refl
drop-front (x ∷ text) s = drop-front text s

-- What a round returns for a piece and the rounds behind it.
abbrev pub join : List ℕ → ℕ → Option (List ℕ) → Option (List ℕ)
join p cap rest =
    if ltb cap (length p) then none else elim rest [ none ↦ none | some out ↦ some (p ++ out) ]

piece-byte : (cp adv b : ℕ) (text : List ℕ) → u2b cp ≡ some b → piece (cp, adv) text ≡ b ∷ []
unfolding piece
piece-byte cp adv b text e = rw (piece, e) refl

abbrev round_at : ℕ → List ℕ → ℕ → ℕ × ℕ → Option (List ℕ)
round_at fuel body cap at =
    join (piece at body) cap (decode_text fuel (drop at.1 body) (cap - length (piece at body)))

decode_text-front :
    (fuel c : ℕ) (text s : List ℕ) (cap : ℕ)
    → Fronts (code_point c) text
    → c < 256
    → decode_text (suc fuel) (text ++ s) cap ≡ join (c ∷ []) cap (decode_text fuel s (cap - 1))
unfolding decode_text
decode_text-front fuel c text s cap f l =
    let body = f.first ∷ (f.tail ++ s) in
    let e : text ++ s ≡ body = ap (λ t. t ++ s) f.whole in
    let gone : drop (length text) body ≡ s = ap (drop (length text)) (sym e) ∙ drop-front text s in
    let byte : piece (code_point c, length text) body ≡ c ∷ [] =
      piece-byte (code_point c) (length text) c body (u2b-code_point c l) in
    ap (λ t. decode_text (suc fuel) t cap) e
    ∙ ap (λ at. round_at fuel body cap at) (f.reads s)
    ∙ ap (λ p. join p cap (decode_text fuel (drop (length text) body) (cap - length p))) byte
    ∙ ap (λ t. join (c ∷ []) cap (decode_text fuel t (cap - 1))) gone

decode_nil : (fuel cap : ℕ) → decode_text fuel [] cap ≡ some []
unfolding decode_text
decode_nil zero cap = refl
decode_nil (suc fuel) cap = refl

pub decode_text-map_bytes :
    (cs : List ℕ) (fuel cap : ℕ)
    → All (λ c. c < 256) cs
    → length cs ≤ fuel
    → length cs ≤ cap
    → decode_text fuel (map_bytes cs) cap ≡ some cs
unfolding map_bytes
decode_text-map_bytes [] zero cap b f r = decode_nil zero cap
decode_text-map_bytes [] (suc fuel) cap b f r = decode_nil (suc fuel) cap
decode_text-map_bytes (c ∷ cs) zero cap b f r = absurd (omega arith)
decode_text-map_bytes (c ∷ cs) (suc fuel) cap (l, b) f r =
    let fits : ltb cap 1 ≡ false = ground (arith, r) in
    decode_text-front fuel c (mapped c) (map_bytes cs) cap (mapped-Fronts c l) l
    ∙ rw (fits, decode_text-map_bytes cs fuel (cap - 1) b (omega arith) (omega arith)) refl
