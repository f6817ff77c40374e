-- ===== src/Formats/Gguf/Strings.antt =====
-- Numbers and texts as they are written in a GGUF file, and the reads of src/formats/gguf.c that get them
-- back: `rd`, `rd_str` and `gguf_arr_str`.
use multi_model_llm_engine.Base.{
  ℕ, zero, suc, ◌+◌, ◌*◌, ◌/◌, ◌%◌, ◌^◌, ◌<◌, ◌≡◌, refl, ap, ◌∙◌, false, some, List, [], ◌∷◌, ◌++◌,
  length, drop, arith, get_elem?, All,
}
use multi_model_llm_engine.Base.Int.{pos, leb_ℤ, ltb_ℤ}
use multi_model_llm_engine.Formats.Gguf.Cursor.{
  ok, then_parse, read_le, rd, split, take_bytes, rd_str,
}
use multi_model_llm_engine.Formats.Gguf.Types.{GgufKv, string, array}
use multi_model_llm_engine.Formats.Gguf.Open.{Gguf}
use multi_model_llm_engine.Formats.Gguf.Access.{walk_strings, gguf_arr_str}

-- The `n` bytes of a number, the lowest first.
unfoldable pub print_le : ℕ → ℕ → List ℕ
print_le zero v = []
print_le (suc n) v = v % 256 ∷ print_le n (v / 256)

unfoldable pub print_str : List ℕ → List ℕ
print_str s = print_le 8 (length s) ++ s

unfoldable pub print_strs : List (List ℕ) → List ℕ
print_strs [] = []
print_strs (s ∷ ss) = print_str s ++ print_strs ss

read_le-print :
    (n v : ℕ) (rest : List ℕ) → v < 256 ^ n → read_le n (print_le n v ++ rest) ≡ some (v, rest)
unfolding read_le print_le
read_le-print zero v rest h = let e : v ≡ 0 = omega arith in rw e refl
read_le-print (suc n) v rest h =
    let ih = read_le-print n (v / 256) rest (omega (arith, h)) in
    let e : v % 256 + 256 * (v / 256) ≡ v = omega arith in rw (ih, e) refl

split-append : (s rest : List ℕ) → split (length s) (s ++ rest) ≡ some (s, rest)
unfolding split
split-append [] rest = refl
split-append (b ∷ s) rest = rw (split-append s rest) refl

assoc : (xs ys zs : List ℕ) → (xs ++ ys) ++ zs ≡ xs ++ (ys ++ zs)
assoc [] ys zs = refl
assoc (x ∷ xs) ys zs = ap (λ l. x ∷ l) (assoc xs ys zs)

rd-read_le :
    (n at v : ℕ) (bs rest : List ℕ)
    → read_le n bs ≡ some (v, rest)
    → rd n (record { at = at; rest = bs }) ≡ ok (v, record { at = at + n; rest = rest })
unfolding rd
rd-read_le n at v bs rest e = rw (rd, e) refl

take_bytes-append :
    (at : ℕ) (s rest : List ℕ)
    → take_bytes (length s) (record { at = at; rest = s ++ rest })
      ≡ ok (s, record { at = at + length s; rest = rest })
unfolding take_bytes
take_bytes-append at s rest = rw (take_bytes, split-append s rest) refl

-- A text of less than 2^64 bytes that is written as GGUF does, with anything behind it, is read back by
-- `rd_str`, and the cursor then stands behind it.
pub rd_str-print :
    (at : ℕ) (s rest : List ℕ)
    → length s < 2 ^ 64
    → rd_str (record { at = at; rest = print_str s ++ rest })
      ≡ ok (s, record { at = at + 8 + length s; rest = rest })
unfolding rd_str print_str
rd_str-print at s rest h =
    let e : read_le 8 ((print_le 8 (length s) ++ s) ++ rest) ≡ some (length s, s ++ rest) =
      ap (read_le 8) (assoc (print_le 8 (length s)) s rest)
      ∙ read_le-print 8 (length s) (s ++ rest) (omega (arith, h)) in
    ap (λ w. then_parse w take_bytes) (rd-read_le 8 at (length s) _ (s ++ rest) e)
    ∙ take_bytes-append (at + 8) s rest

-- Texts that a length of eight bytes can measure.
abbrev pub Short : List (List ℕ) → Type 0
Short ss = All (λ s. length s < 2 ^ 64) ss

walk_strings-print :
    (i at : ℕ) (ss : List (List ℕ)) (rest : List ℕ)
    → Short ss
    → i < length ss
    → walk_strings i (record { at = at; rest = print_strs ss ++ rest }) ≡ get_elem? ss i
unfolding walk_strings print_strs
walk_strings-print i at [] rest h l = absurd (omega arith)
walk_strings-print zero at (s ∷ ss) rest (h, hs) l =
    rw
      (
        assoc (print_str s) (print_strs ss) rest,
        walk_strings,
        rd_str-print at s (print_strs ss ++ rest) h,
      )
      refl
walk_strings-print (suc i) at (s ∷ ss) rest (h, hs) l =
    rw
      (
        assoc (print_str s) (print_strs ss) rest,
        walk_strings,
        rd_str-print at s (print_strs ss ++ rest) h,
      )
      (walk_strings-print i (at + 8 + length s) ss rest hs (omega arith))

drop-prefix : (xs ys : List ℕ) → drop (length xs) (xs ++ ys) ≡ ys
drop-prefix [] ys = refl
drop-prefix (x ∷ xs) ys = drop-prefix xs ys

-- Where a key's array of strings begins behind `before` in the blob and holds the texts `ss`, each of less
-- than 2^64 bytes, `gguf_arr_str` gives the text of each index below their number.
pub gguf_arr_str-nth :
    (g : Gguf) (k : GgufKv) (before : List ℕ) (ss : List (List ℕ)) (behind : List ℕ) (i : ℕ)
    → k.type ≡ array
    → k.arr_type ≡ string
    → k.arr_len ≡ pos (length ss)
    → k.arr_at ≡ length before
    → g.blob ≡ before ++ (print_strs ss ++ behind)
    → Short ss
    → i < length ss
    → gguf_arr_str g k (pos i) ≡ get_elem? ss i
unfolding gguf_arr_str
gguf_arr_str-nth g k before ss behind i et ea el e₀ eb h l =
    let from_0 : ltb_ℤ (pos i) (pos 0) ≡ false = ground arith in
    let inside : leb_ℤ (pos (length ss)) (pos i) ≡ false = ground arith in
    rw (et, ea, el, e₀, eb, from_0, inside, drop-prefix before (print_strs ss ++ behind))
      (walk_strings-print i (length before) ss behind h l)
